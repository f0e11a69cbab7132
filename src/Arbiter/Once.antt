-- ===== src/Arbiter/Once.antt =====
-- Every step of prompt_arbiter.c keeps each key pending at most once, while it waits and while it sounds.
use yuyin_lingnabei.Prelude.{Bool, List, [], ◌∷◌, All}
use yuyin_lingnabei.Prelude.Errors.{EspErr}
use yuyin_lingnabei.Arbiter.{
  PromptId, Key, Arbiter, Owner, waiting, taking, checking, sounding, submit, owner_step,
  set_conversation_active, set_network_connected,
}
use yuyin_lingnabei.Arbiter.Keys.{Fits}
use yuyin_lingnabei.Arbiter.Pending.{Inv}
use yuyin_lingnabei.Arbiter.Steps.{owner_step-Inv, submit-Inv}

-- The calls and the steps that may come between each other in any order.
pub data Call : Type 0 where
  submits : PromptId → Key → Call
  sets_conversation : Bool → Call
  sets_network : Bool → Call
  owner_runs : Call

abbrev pub CallFits : Call → Type 0
CallFits (submits id key) = Fits key
CallFits _ = Unit {0}

unfoldable pub perform : (PromptId → EspErr) → Call → Arbiter × Owner → Arbiter × Owner
perform play (submits id key) (s, o) = ((submit id key s).1, o)
perform play (sets_conversation active) (s, o) = (set_conversation_active active s, o)
perform play (sets_network up) (s, o) = (set_network_connected up s, o)
perform play owner_runs (s, o) = owner_step play s o

unfoldable pub history : (PromptId → EspErr) → List Call → Arbiter × Owner → Arbiter × Owner
history play [] so = so
history play (c ∷ cs) so = history play cs (perform play c so)

flags-Inv :
    (s : Arbiter) (o : Owner) (active up noted : Bool)
    → Inv s o
    → Inv (record s { conversation_active = active; network_is_up = up; notified = noted }) o
flags-Inv s waiting active up noted v = record {
  size = v.size;
  keys_fit = v.keys_fit;
  distinct = v.distinct;
  alone = v.alone;
  in_hand = v.in_hand;
}
flags-Inv s taking active up noted v = record {
  size = v.size;
  keys_fit = v.keys_fit;
  distinct = v.distinct;
  alone = v.alone;
  in_hand = v.in_hand;
}
flags-Inv s (checking e) active up noted v = record {
  size = v.size;
  keys_fit = v.keys_fit;
  distinct = v.distinct;
  alone = v.alone;
  in_hand = v.in_hand;
}
flags-Inv s (sounding e) active up noted v = record {
  size = v.size;
  keys_fit = v.keys_fit;
  distinct = v.distinct;
  alone = v.alone;
  in_hand = v.in_hand;
}

perform-Inv :
    (play : PromptId → EspErr) (c : Call) (so : Arbiter × Owner)
    → CallFits c
    → Inv so.0 so.1
    → Inv (perform play c so).0 (perform play c so).1
unfolding perform set_conversation_active set_network_connected
perform-Inv play (submits id key) (s, o) f v = submit-Inv id key s o f v
perform-Inv play (sets_conversation active) (s, o) f v = flags-Inv s o active _ _ v
perform-Inv play (sets_network up) (s, o) f v = flags-Inv s o _ up _ v
perform-Inv play owner_runs (s, o) f v = owner_step-Inv play s o v

-- From a state of the invariant, and with keys that fit their 64 bytes, every sequence of submissions,
-- of changes of the two flags and of steps of the owner task ends in a state of the invariant: eight
-- places, no key in two of those in use, and the key that is playing in none.
pub history-Inv :
    (play : PromptId → EspErr) (cs : List Call) (so : Arbiter × Owner)
    → All CallFits cs
    → Inv so.0 so.1
    → Inv (history play cs so).0 (history play cs so).1
unfolding history
history-Inv play [] so f v = v
history-Inv play (c ∷ cs) so f v =
    history-Inv play cs (perform play c so) f.1 (perform-Inv play c so f.0 v)
