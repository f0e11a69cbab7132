-- ===== src/Pipeline/Leaving.antt =====
-- What main.c's loop gives back when it is left.
use yuyin_lingnabei.Prelude.{◌≡◌, sym, ap, ◌∙◌, Bool, true, false, not, ◌||◌, ◌&&◌, [], ◌∷◌, arith}
use yuyin_lingnabei.Prelude.Errors.{EspErr}
use yuyin_lingnabei.Prelude.Texts.{Text, codes}
use yuyin_lingnabei.Arbiter.{PromptId}
use yuyin_lingnabei.Arbiter
use yuyin_lingnabei.Conversation.{technical_error}
use yuyin_lingnabei.Pipeline.Calls.{
  AppState, playing_prompt, app_idle, app_error, cleanup_pipeline_resources, conversation_active,
  open_joined, close, audio_in_deinit, audio_out_deinit, submit, wait_for_speech_start,
  stream_after_speech_start, playback_start, History, Device, Run, call, is_ok, set_state,
  play_prompt, tell,
}
use yuyin_lingnabei.Pipeline.{Outcome, again, ended, failed, technical_failure, leave}
use yuyin_lingnabei.Pipeline.Lifetimes.{
  AllLawful, conversation_open, playback_held, told_active, apologised, is_apology, AliveAtEnd,
}
use yuyin_lingnabei.Pipeline.Progress.{Decided}

module _ (dev : Device) (first : AppState) where
  -- When everything is given back.
  pub record Released (s : AppState) (h : History) : Type 0 where
    pub lawful : AllLawful dev first h
    pub told : told_active dev first h ≡ conversation_active s
    pub closed : conversation_open dev first h ≡ false
    pub not_held : playback_held dev first h ≡ false

  abbrev pub IsReleased : Run → Type 0
  IsReleased r = Released r.app_state r.history

  pub set_state-Released : (s : AppState) (r : Run) → IsReleased r → IsReleased (set_state s r)
  unfolding set_state
  set_state-Released s r h = ground arith

  -- Whether the microphone was given back and has not been listened to since.
  abbrev pub audio_in_released : History → Bool
  audio_in_released [] = false
  audio_in_released (audio_in_deinit ∷ h) = true
  audio_in_released (wait_for_speech_start threshold arm_ms timeout_ms ∷ h) = false
  audio_in_released (stream_after_speech_start ∷ h) = false
  audio_in_released (_ ∷ h) = audio_in_released h

  -- Whether the loudspeaker was given back and nothing has been played since.
  abbrev pub audio_out_released : History → Bool
  audio_out_released [] = false
  audio_out_released (audio_out_deinit ∷ h) = true
  audio_out_released (submit id key ∷ h) = false
  audio_out_released (playback_start url ∷ h) = false
  audio_out_released (_ ∷ h) = audio_out_released h

  abbrev pub audio_released : Run → Bool
  audio_released r = audio_in_released r.history && audio_out_released r.history

  -- How it leaves: everything is given back, the app is idle, and the prompt for technical errors was
  -- submitted exactly where an error is returned.
  pub record Left (out : EspErr × Run) : Type 0 where
    pub released : IsReleased out.1
    pub silent : audio_released out.1 ≡ true
    pub at_rest : out.1.app_state ≡ app_idle
    pub sorry : apologised dev first out.1.history ≡ not (is_ok out.0)

  pub set_state_idle : (r : Run) → (set_state app_idle r).app_state ≡ app_idle
  unfolding set_state
  set_state_idle r = ground arith

  pub audio_released-set_state :
      (s : AppState) (r : Run) → audio_released (set_state s r) ≡ audio_released r
  unfolding set_state
  audio_released-set_state s r = ground arith

  pub apologised-set_state :
      (s : AppState) (r : Run)
      → apologised dev first (set_state s r).history ≡ apologised dev first r.history
  unfolding set_state
  apologised-set_state s r = ground arith

  pub play_prompt-Released :
      (id : PromptId) (key : Text) (r : Run)
      → IsReleased r
      → IsReleased (play_prompt dev id key r).1
  unfolding play_prompt
  play_prompt-Released id key r h = ground arith

  pub apologised-play_prompt :
      (id : PromptId) (key : Text) (r : Run)
      → apologised dev first (play_prompt dev id key r).1.history
        ≡ (is_apology dev first id || apologised dev first r.history)
  unfolding play_prompt
  apologised-play_prompt id key r = ground arith

  pub technical_failure-Left :
      (ret : EspErr) (r : Run)
      → is_ok ret ≡ false
      → IsReleased r
      → Left (technical_failure dev ret r)
  unfolding technical_failure
  technical_failure-Left ret r bad h =
      let key = codes "conversation:technical_error" in
      let prompted = (play_prompt dev Arbiter.technical_error key r).1 in
      let given_back = play_prompt-Released Arbiter.technical_error key r h in
      let clean = cleanup_pipeline_resources prompted in
      let shown = set_state app_error clean in
      let released : IsReleased clean = ground arith in
      let said =
        apologised-set_state app_idle shown
        ∙ apologised-set_state app_error clean
        ∙ apologised-play_prompt Arbiter.technical_error key r in
      record {
        released = set_state-Released app_idle shown (set_state-Released app_error clean released);
        silent = audio_released-set_state app_idle shown ∙ audio_released-set_state app_error clean;
        at_rest = set_state_idle shown;
        sorry = said ∙ sym (ap not bad);
      }

  pub leave-Left : (o : Outcome) → AliveAtEnd dev first o → Decided dev o → Left (leave dev o)
  unfolding leave
  leave-Left (again r) h d = absurd h
  leave-Left (ended reason r) h d =
      let clean = cleanup_pipeline_resources (call (close reason) r) in
      let released : IsReleased clean = ground arith in
      record {
        released = set_state-Released app_idle clean released;
        silent = audio_released-set_state app_idle clean;
        at_rest = set_state_idle clean;
        sorry = apologised-set_state app_idle clean ∙ h.calm;
      }
  leave-Left (failed ret r) h d =
      let closed = call (close (codes "technical_error")) (tell dev technical_error r) in
      technical_failure-Left ret closed d (ground arith)

  -- An open task that answers ESP_OK has given a conversation.
  abbrev pub OpenGives : Type 0
  OpenGives =
      (h : History)
      → is_ok (dev.result (open_joined ∷ h)) ≡ true
      → dev.opened (open_joined ∷ h) ≡ true

  -- The prompt before the conversation.
  abbrev pub prompted_from : Run → EspErr × Run
  prompted_from r =
      play_prompt dev Arbiter.speak (codes "conversation:speak:0") (set_state playing_prompt r)
