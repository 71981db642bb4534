-- ===== src/Input/Sender/Mirror.antt =====
-- The shared record follows the sender of src/input/InputSender.cpp over any calls.
use infinity_clicker.Base.{
  ℕ, ◌+◌, ◌≡◌, refl, ap, sym, ◌∙◌, Bool, true, false, if◌then◌else◌, ◌==◌, List, [], ◌∷◌, take,
  length, some,
}
use infinity_clicker.Input.Action.{Input}
use infinity_clicker.Input.HeldState.{HeldShared, k_magic, fresh_shared}
use infinity_clicker.Input.Sender.{
  Sender, init, publish_to, publish_shared, track_all, publish, send, release_inputs, release_all,
  u64,
}
use infinity_clicker.Input.Sender.Kept.{IsKept, track_all-IsKept, track_all-shared}

-- A call of the sender, with what Windows answers.
pub data Call : Type 0 where
  call_send : (ok err : ℕ) → List Input → Call
  call_release : (ok err retried : ℕ) → Call

unfoldable pub do_call : Call → Sender → Sender
do_call (call_send ok err is) s = send ok err is s
do_call (call_release ok err retried) s = (release_all ok err retried s).0

unfoldable pub do_calls : List Call → Sender → Sender
do_calls [] s = s
do_calls (c ∷ cs) s = do_calls cs (do_call c s)

-- The copy has the bits of the sender, and the metadata of what is held.
pub record Mirrors (h : HeldShared) (s : Sender) : Type 0 where
  pub same_keys : (vk : ℕ) → h.key_bits vk ≡ s.held_keys vk
  pub same_buttons : (b : ℕ) → h.mouse_mask b ≡ s.held_mouse b
  pub same_meta : (vk : ℕ) → s.held_keys vk ≡ true → h.key_scan vk ≡ s.key_meta vk
  pub marked : h.magic ≡ k_magic

-- Between two calls the copy is up to date.
pub record IsMirrored (s : Sender) : Type 0 where
  pub clean : s.dirty ≡ false
  pub copy : HeldShared
  pub copied : s.shared ≡ some copy
  pub mirrors : Mirrors copy s

publish-IsMirrored :
    (s : Sender) (h : HeldShared) → s.shared ≡ some h → h.magic ≡ k_magic → IsMirrored (publish s)
unfolding publish publish_to
publish-IsMirrored s h e m = record {
  clean = refl;
  copy = publish_to s h;
  copied = ap (publish_shared s) e;
  mirrors = record {
    same_keys = λ vk. refl;
    same_buttons = λ b. refl;
    same_meta = λ vk held. rw held refl;
    marked = m;
  };
}

kept-IsMirrored :
    (s t : Sender)
    → IsMirrored s
    → IsKept s t
    → t.dirty ≡ false
    → t.shared ≡ s.shared
    → IsMirrored t
kept-IsMirrored s t m k c e = record {
  clean = c;
  copy = m.copy;
  copied = e ∙ m.copied;
  mirrors = record {
    same_keys = λ vk. m.mirrors.same_keys vk ∙ sym (k.keys_kept vk);
    same_buttons = λ b. m.mirrors.same_buttons b ∙ sym (k.buttons_kept b);
    same_meta =
        λ vk held. m.mirrors.same_meta vk (sym (k.keys_kept vk) ∙ held) ∙ sym (k.meta_kept vk);
    marked = m.mirrors.marked;
  };
}

-- Tracking, and publishing if anything has changed.
abbrev settled : Sender → Sender
settled t = if t.dirty then publish t else t

published_or :
    (b : Bool) (t : Sender)
    → IsMirrored (publish t)
    → (b ≡ false → IsMirrored t)
    → IsMirrored (if b then publish t else t)
published_or true t p q = p
published_or false t p q = q refl

settled-IsMirrored :
    (is : List Input) (s : Sender) → IsMirrored s → IsMirrored (settled (track_all s is))
settled-IsMirrored is s m =
    let t = track_all s is in
    let shared = track_all-shared is s in
    published_or t.dirty t (publish-IsMirrored t m.copy (shared ∙ m.copied) m.mirrors.marked)
      (λ c. kept-IsMirrored s t m (track_all-IsKept is s c) c shared)

either_IsMirrored :
    (b : Bool) (x y : Sender × ℕ)
    → IsMirrored x.0
    → IsMirrored y.0
    → IsMirrored (if b then x else y).0
either_IsMirrored true x y p q = p
either_IsMirrored false x y p q = q

either_send :
    (b : Bool) (s t : Sender) → IsMirrored s → IsMirrored t → IsMirrored (if b then s else t)
either_send true s t p q = p
either_send false s t p q = q

send-IsMirrored :
    (ok err : ℕ) (is : List Input) (s : Sender) → IsMirrored s → IsMirrored (send ok err is s)
unfolding send
send-IsMirrored ok err is s m =
    let counted = record s {
      calls = u64 (s.calls + 1);
      requested = u64 (s.requested + length is);
      accepted = u64 (s.accepted + ok);
      failed_calls = if ok == length is then s.failed_calls else u64 (s.failed_calls + 1);
      last_error = if ok == length is then s.last_error else err;
    } in
    either_send (length is == 0) s (settled (track_all counted (take ok is))) m (
      settled-IsMirrored (take ok is) counted (record {
        clean = m.clean;
        copy = m.copy;
        copied = m.copied;
        mirrors = record {
          same_keys = m.mirrors.same_keys;
          same_buttons = m.mirrors.same_buttons;
          same_meta = m.mirrors.same_meta;
          marked = m.mirrors.marked;
        };
      }))

release_all-IsMirrored :
    (ok err retried : ℕ) (s : Sender) → IsMirrored s → IsMirrored (release_all ok err retried s).0
unfolding release_all
release_all-IsMirrored ok err retried s m =
    let is = release_inputs s in
    let sent = send ok err is s in
    let after = send-IsMirrored ok err is s m in
    either_IsMirrored (length is == 0) (s, 0)
      (if ok == length is then (sent, ok) else (publish (track_all sent is), ok + retried)) m
      (either_IsMirrored (ok == length is) (sent, ok) (publish (track_all sent is), ok + retried)
        after
        (publish-IsMirrored (track_all sent is) after.copy (track_all-shared is sent ∙ after.copied)
          after.mirrors.marked))

pub do_calls-IsMirrored : (cs : List Call) (s : Sender) → IsMirrored s → IsMirrored (do_calls cs s)
unfolding do_calls do_call
do_calls-IsMirrored [] s m = m
do_calls-IsMirrored (call_send ok err is ∷ cs) s m =
    do_calls-IsMirrored cs (send ok err is s) (send-IsMirrored ok err is s m)
do_calls-IsMirrored (call_release ok err retried ∷ cs) s m =
    do_calls-IsMirrored cs _ (release_all-IsMirrored ok err retried s m)

pub init-IsMirrored : (pid : ℕ) → IsMirrored (init (some (fresh_shared pid)))
unfolding init fresh_shared
init-IsMirrored pid = record {
  clean = refl;
  copy = fresh_shared pid;
  copied = refl;
  mirrors = record {
    same_keys = λ vk. refl;
    same_buttons = λ b. refl;
    same_meta = λ vk held. refl;
    marked = refl;
  };
}
