-- ===== src/Playback/Streaming.antt =====
-- A playback session of esp_idf_demo/main/playback_session.c, and the task that owns it. The audio output
-- and the stream of cloud_client.c are called for their answers; times are microseconds.
use yuyin_lingnabei.Prelude.{ℕ, ◌+◌, Bool, true, false, if◌then◌else◌}
use yuyin_lingnabei.Prelude.Errors.{is_ok, EspErr, other_err}
use yuyin_lingnabei.Prelude.Texts.{Text}

-- `playback_session_t`, without its handles: the event group is the bit PLAYBACK_SESSION_DONE_BIT.
pub record Session : Type 0 where
  pub url : Text
  pub done : Bool
  pub cancel_requested : Bool
  pub completion_published : Bool
  pub cancel_reason : EspErr
  pub result : EspErr
  pub last_progress_us : ℕ

-- DEMO_CLOUD_ERR_AUDIO_CANCELLED
abbrev pub audio_cancelled : EspErr
audio_cancelled = other_err (0x7000 + 5)

-- `playback_session_pcm_sink` of some bytes; `write_result` is what the buffered write returns.
unfoldable pub pcm_sink : (write_result : EspErr) (now_us : ℕ) → Session → EspErr × Session
pcm_sink write_result now_us s =
    if s.cancel_requested
    then (audio_cancelled, s)
    else if is_ok write_result
    then (write_result, record s { last_progress_us = now_us })
    else (write_result, s)

-- Where the owner stands.
pub data Owner : Type 0 where
  opening : Owner
  streaming : Owner
  closing : (stream_ret : EspErr) → Owner
  finishing : (ret : EspErr) → Owner
  signalling : Owner
  publishing : Owner
  suspending : Owner
  suspended : Owner

-- What its calls answer.
pub data Answer : Type 0 where
  open_result : EspErr → Answer  -- of audio_out_open_pcm_stream
  pcm : (write_result : EspErr) (now_us : ℕ) → Answer  -- the stream hands over some bytes
  stream_result : EspErr → Answer  -- of the stream, when it returns
  close_result : EspErr → Answer  -- of audio_out_close_pcm_stream
  nothing : Answer  -- where no call is waited for

-- `playback_session_owner`; an answer that is not waited for changes nothing.
unfoldable pub owner_step : Answer → Owner → Session → Owner × Session
owner_step (open_result ret) opening s = (if is_ok ret then streaming else finishing ret, s)
owner_step (pcm write_result now_us) streaming s = (streaming, (pcm_sink write_result now_us s).1)
owner_step (stream_result ret) streaming s = (closing ret, s)
owner_step (close_result ret) (closing stream_ret) s =
    (finishing (if is_ok stream_ret then ret else stream_ret), s)
owner_step nothing (finishing ret) s = (signalling, record s { result = ret })
owner_step nothing signalling s = (publishing, record s { done = true })
owner_step nothing publishing s = (suspending, record s { completion_published = true })
owner_step nothing suspending s = (suspended, s)
owner_step _ owner s = (owner, s)

abbrev pub is_suspended : Owner → Bool
is_suspended suspended = true
is_suspended _ = false

-- `playback_session_cancel` of a session.
unfoldable pub cancel : EspErr → ℕ → Session → Session
cancel reason now_us s = record s {
  cancel_reason = reason;
  cancel_requested = true;
  last_progress_us = now_us;
}
