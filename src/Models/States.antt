-- ===== src/Models/States.antt =====
-- The state of a job that passes a test of spoolctl/models.py's states.
use spoolctl.Base.{◌≡◌, refl, true}
use spoolctl.Models.{JobState, is_running, is_queued}

pub running_state : (s : JobState) → is_running s ≡ true → s ≡ JobState.running
running_state JobState.running h = refl
running_state JobState.queued h = cc h
running_state JobState.done h = cc h
running_state JobState.failed h = cc h
running_state JobState.dead h = cc h
running_state JobState.canceled h = cc h

pub queued_state : (s : JobState) → is_queued s ≡ true → s ≡ JobState.queued
queued_state JobState.queued h = refl
queued_state JobState.running h = cc h
queued_state JobState.done h = cc h
queued_state JobState.failed h = cc h
queued_state JobState.dead h = cc h
queued_state JobState.canceled h = cc h
