-- ===== src/Sounds.antt =====
-- The playing of a prompt in esp_idf_demo/main/prompt_arbiter.c: `prompt_arbiter_play`, and
-- `prompt_arbiter_pcm_bytes_with_tail`, which shortens a sound's silent end. The embedded sound files and
-- audio_out.c's `audio_out_play_pcm_buffer` are arguments; a sound is 16 kHz, mono, 16 bits.
pub mod Trimming
mod Examples
use yuyin_lingnabei.Prelude.{
  ℕ, zero, suc, ◌+◌, ◌-◌, ◌*◌, ◌/◌, ◌%◌, Bool, true, false, not, Option, none, some, ◌&&◌, ◌||◌,
  List, length, take, ltb, leb, ◌==◌, if◌then◌else◌,
}
use yuyin_lingnabei.Prelude.Errors.{EspErr, invalid_size}
use yuyin_lingnabei.Wire.{byte_at}
use yuyin_lingnabei.Buffers.{size}
use yuyin_lingnabei.Arbiter.{
  PromptId, boot_bell, network_connected, conversation_done, followup_cue, speak, reprompt,
  network_required, technical_error, rank,
}

-- The embedded files, each from its start to its end.
pub record Assets : Type 0 where
  pub prompt_intro : List ℕ
  pub prompt_followup_bell : List ℕ
  pub prompt_followup : List ℕ
  pub prompt_speak : List ℕ
  pub prompt_repeat : List ℕ
  pub prompt_technical_error : List ℕ

-- DEMO_FOLLOWUP_PROMPT_TAIL_MS
abbrev pub followup_prompt_tail_ms : ℕ
followup_prompt_tail_ms = 60

-- The loop, from `audible_bytes` on.
unfoldable pub audible : List ℕ → ℕ → ℕ
audible start zero = zero
audible start (suc zero) = suc zero
audible start (suc (suc n)) =
    let rest = audible start n in
    if byte_at start (suc n) == 0 && byte_at start n == 0 then rest else suc (suc n)

-- `prompt_arbiter_pcm_bytes_with_tail`; its product and its sum are of type size_t and wrap.
unfoldable pub pcm_bytes_with_tail : List ℕ → ℕ → ℕ → ℕ
unfolding audible
pcm_bytes_with_tail start bytes tail_ms =
    let audible_bytes = audible start bytes in
    let tail_bytes = size (16000 * 1 * 2 * tail_ms) / 1000 in
    let kept = size (audible_bytes + tail_bytes) in
    if ltb bytes 2 || tail_ms == 0
    then bytes
    else if audible_bytes == 0 || leb bytes kept
    then bytes
    else kept - kept % 2

-- The sound of a prompt. No other number is a prompt, so that ESP_ERR_NOT_SUPPORTED does not occur.
unfoldable pub sound_of : Assets → PromptId → List ℕ
sound_of s boot_bell = s.prompt_intro
sound_of s network_connected = s.prompt_intro
sound_of s network_required = s.prompt_followup_bell
sound_of s conversation_done = s.prompt_followup_bell
sound_of s followup_cue = s.prompt_followup
sound_of s speak = s.prompt_speak
sound_of s reprompt = s.prompt_repeat
sound_of s technical_error = s.prompt_technical_error

-- What is handed to the loudspeaker; `none` if the sound is not one of whole samples.
unfoldable pub pcm_to_play : Assets → PromptId → Option (List ℕ)
unfolding sound_of pcm_bytes_with_tail
pcm_to_play s id =
    let sound = sound_of s id in
    let bytes = length sound in
    if bytes == 0 || not (bytes % 2 == 0)
    then none
    else if rank id == rank followup_cue
    then some (take (pcm_bytes_with_tail sound bytes followup_prompt_tail_ms) sound)
    else some sound

-- `prompt_arbiter_play`; `play_pcm` is `audio_out_play_pcm_buffer` with the format of the prompts.
unfoldable pub play : Assets → (List ℕ → EspErr) → PromptId → EspErr
unfolding pcm_to_play
play s play_pcm id = elim (pcm_to_play s id) [ none ↦ invalid_size | some pcm ↦ play_pcm pcm ]
