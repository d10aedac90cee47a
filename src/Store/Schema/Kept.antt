-- ===== src/Store/Schema/Kept.antt =====
-- What the migrations keep of a table: its rows with the columns of version 1, and its mark.
use spoolctl.Base.{
  ℕ, ◌≤◌, ◌≡◌, refl, ◌∙◌, ap, inl, inr, Bool, true, false, List, [], ◌∷◌, ◌++◌, map, Option, none,
  some, String, str_eq, str_eq_iff, arith, any, Bool-cases,
}
use spoolctl.Store.Schema.{
  Cell, Row, Table, cell_in, cell, put_cell, with_cell, append_cell, set_column, add_column,
  highest_id, restored_mark, rebuild_table,
}

-- The columns that version 1 did not have.
abbrev pub later_columns : List String
later_columns =
    "idempotency_key" ∷ "tags_json" ∷ "note" ∷ "priority" ∷ "queue" ∷ "cwd" ∷ "env_json" ∷ "crashes"
    ∷ "max_crashes" ∷ "failure_reason" ∷ []

abbrev pub is_later : String → Bool
is_later c = any (str_eq c) later_columns

-- The row has the same id, and the same values in the columns of version 1.
pub record KeptRow (r r' : Row) : Type 0 where
  pub same_id : r'.id ≡ r.id
  pub same_cells : (c : String) → is_later c ≡ false → cell c r' ≡ cell c r

-- The rows, one by one and in their order.
abbrev pub KeptRows : List Row → List Row → Type 0
KeptRows [] [] = Unit {0}
KeptRows (r ∷ rows) (r' ∷ rows') = KeptRow r r' × KeptRows rows rows'
KeptRows [] (r' ∷ rows') = ⊥
KeptRows (r ∷ rows) [] = ⊥

-- No id that was issued is issued again.
abbrev pub MarkKept : Option ℕ → Option ℕ → Type 0
MarkKept none m = Unit {0}
MarkKept (some n) none = ⊥
MarkKept (some n) (some m) = n ≤ m

pub record KeptTable (t t' : Table) : Type 0 where
  pub rows : KeptRows t.rows t'.rows
  pub mark : MarkKept t.mark t'.mark

KeptRow-refl : (r : Row) → KeptRow r r
KeptRow-refl r = record { same_id = refl; same_cells = λ c h. refl }

KeptRow-trans : {a b c : Row} → KeptRow a b → KeptRow b c → KeptRow a c
KeptRow-trans h k = record {
  same_id = k.same_id ∙ h.same_id;
  same_cells = λ c e. k.same_cells c e ∙ h.same_cells c e;
}

KeptRows-refl : (rows : List Row) → KeptRows rows rows
KeptRows-refl [] = tt
KeptRows-refl (r ∷ rows) = (KeptRow-refl r, KeptRows-refl rows)

KeptRows-trans : (xs ys zs : List Row) → KeptRows xs ys → KeptRows ys zs → KeptRows xs zs
KeptRows-trans [] [] [] h k = tt
KeptRows-trans (x ∷ xs) (y ∷ ys) (z ∷ zs) h k =
    (KeptRow-trans h.0 k.0, KeptRows-trans xs ys zs h.1 k.1)
KeptRows-trans [] [] (z ∷ zs) h k = absurd k
KeptRows-trans [] (y ∷ ys) zs h k = absurd h
KeptRows-trans (x ∷ xs) [] zs h k = absurd h
KeptRows-trans (x ∷ xs) (y ∷ ys) [] h k = absurd k

MarkKept-refl : (m : Option ℕ) → MarkKept m m
MarkKept-refl none = tt
MarkKept-refl (some n) = omega arith

MarkKept-trans : (a b c : Option ℕ) → MarkKept a b → MarkKept b c → MarkKept a c
MarkKept-trans none b c h k = tt
MarkKept-trans (some n) none c h k = absurd h
MarkKept-trans (some n) (some m) none h k = absurd k
MarkKept-trans (some n) (some m) (some p) h k = omega (arith, h, k)

pub KeptTable-refl : (t : Table) → KeptTable t t
KeptTable-refl t = record { rows = KeptRows-refl t.rows; mark = MarkKept-refl t.mark }

pub KeptTable-trans : {a b c : Table} → KeptTable a b → KeptTable b c → KeptTable a c
KeptTable-trans {a} {b} {c} h k = record {
  rows = KeptRows-trans a.rows b.rows c.rows h.rows k.rows;
  mark = MarkKept-trans a.mark b.mark c.mark h.mark k.mark;
}

later_ne : (c k : String) → is_later c ≡ false → is_later k ≡ true → str_eq k c ≡ false
later_ne c k e l = elim (Bool-cases (str_eq k c)) [
  | inl t ↦ cc (ap is_later ((str_eq_iff k c).0 t), e, l)
  | inr t ↦ t
]

cell-append :
    (c k : String) (v : Cell) (cells : List (String × Cell))
    → str_eq k c ≡ false
    → cell_in c (cells ++ (k, v) ∷ []) ≡ cell_in c cells
unfolding cell_in
cell-append c k v [] ne = rw ne refl
cell-append c k v ((j, u) ∷ cells) ne = rw (cell-append c k v cells ne) refl

cell-put :
    (c k : String) (v : Cell) (cells : List (String × Cell))
    → str_eq k c ≡ false
    → cell_in c (put_cell k v cells) ≡ cell_in c cells
unfolding cell_in put_cell
cell-put c k v [] ne = rw ne refl
cell-put c k v ((j, u) ∷ cells) ne = elim (Bool-cases (str_eq j k)) [
  | inl t ↦
      let other : str_eq j c ≡ false = ap (λ n. str_eq n c) ((str_eq_iff j k).0 t) ∙ ne in
      rw (t, other) refl
  | inr t ↦ rw (t, cell-put c k v cells ne) refl
]

KeptRows-map :
    (f : Row → Row) → ((r : Row) → KeptRow r (f r)) → (rows : List Row) → KeptRows rows (map f rows)
KeptRows-map f h [] = tt
KeptRows-map f h (r ∷ rows) = (h r, KeptRows-map f h rows)

pub add_column-KeptTable :
    (k : String) (v : Cell) (t : Table) → is_later k ≡ true → KeptTable t (add_column k v t)
unfolding add_column
add_column-KeptTable k v t l = record {
  rows =
      KeptRows-map (append_cell k v)
        (λ r. record {
          same_id = refl;
          same_cells = λ c e. cell-append c k v r.cells (later_ne c k e l);
        })
        t.rows;
  mark = MarkKept-refl t.mark;
}

pub set_column-KeptTable :
    (k : String) (f : Row → Cell) (t : Table) → is_later k ≡ true → KeptTable t (set_column k f t)
unfolding set_column
set_column-KeptTable k f t l = record {
  rows =
      KeptRows-map (with_cell k f)
        (λ r. record {
          same_id = refl;
          same_cells = λ c e. cell-put c k (f r) r.cells (later_ne c k e l);
        })
        t.rows;
  mark = MarkKept-refl t.mark;
}

restored_mark-MarkKept : (m c : Option ℕ) → MarkKept m (restored_mark m c)
unfolding restored_mark
restored_mark-MarkKept none c = tt
restored_mark-MarkKept (some seq) none = omega arith
restored_mark-MarkKept (some seq) (some m) = omega arith

pub rebuild_table-KeptTable : (t : Table) → KeptTable t (rebuild_table t)
unfolding rebuild_table
rebuild_table-KeptTable t = record {
  rows = KeptRows-refl t.rows;
  mark = restored_mark-MarkKept t.mark (highest_id t.rows);
}
