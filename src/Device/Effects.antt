-- ===== src/Device/Effects.antt =====
-- What a step of the driver may do to its event log, and the contract of a chip backend with it.
use mathlib.Core.List.{append-nil}
use wificx_skeleton.Prelude.{
  ℕ, ◌≡◌, ◌⊎◌, refl, sym, ap, subst, ◌∙◌, inr, Bool, true, false, List, [], ◌∷◌, ◌++◌, some, ◌==◌,
  if◌then◌else◌, arith,
}
use wificx_skeleton.Platform.{
  IndicationId, scan_complete, dot11_reset_complete, set_radio_state_complete, connect_complete,
  disconnect_complete, bss_entry_list, radio_status, association_result, disassociation,
  open_complete, Message,
}
use wificx_skeleton.Platform.{Status}
use wificx_skeleton.Keys.{KeyDescriptor}
use wificx_skeleton.Device.{
  Driver, ConnectTarget, Event, indicated, generated_freed, emit, free_block, ChipOps, call_op,
  with_arg,
}

-- The indications that complete a task of the OS; the others are unsolicited.
abbrev pub is_completion : IndicationId → Bool
is_completion scan_complete = true
is_completion dot11_reset_complete = true
is_completion set_radio_state_complete = true
is_completion connect_complete = true
is_completion disconnect_complete = true
is_completion _ = false

abbrev pub code : IndicationId → ℕ
code scan_complete = 0
code dot11_reset_complete = 1
code set_radio_state_complete = 2
code connect_complete = 3
code disconnect_complete = 4
code bss_entry_list = 5
code radio_status = 6
code association_result = 7
code disassociation = 8
code open_complete = 9

-- The message of an indication of the given kind.
abbrev pub messages : IndicationId → Event → List Message
messages id (indicated other m) = if code id == code other then m ∷ [] else []
messages id _ = []

-- The indications of a kind in a log, oldest first.
abbrev pub completions : IndicationId → List Event → List Message
completions id [] = []
completions id (e ∷ log) = completions id log ++ messages id e

-- The rule of docs/wdi_contract.md, section 2: an unsolicited indication has transaction id 0.
abbrev pub IsDisciplined : List Event → Type 0
IsDisciplined [] = Unit {0}
IsDisciplined (indicated id m ∷ log) =
    ((is_completion id ≡ true) ⊎ (m.header.transaction_id ≡ 0)) × IsDisciplined log
IsDisciplined (_ ∷ log) = IsDisciplined log

-- A step that leaves the task queues alone, completes no task of the OS and sends unsolicited
-- indications under the rule only.
pub record Keeps (d e : Driver) : Type 0 where
  pub scan_queue : e.scan_queue ≡ d.scan_queue
  pub reset_queue : e.reset_queue ≡ d.reset_queue
  pub radio_queue : e.radio_queue ≡ d.radio_queue
  pub connect_queue : e.connect_queue ≡ d.connect_queue
  pub disconnect_queue : e.disconnect_queue ≡ d.disconnect_queue
  pub no_completions :
      (id : IndicationId) → is_completion id ≡ true → completions id e.log ≡ completions id d.log
  pub disciplined : IsDisciplined d.log → IsDisciplined e.log

pub Keeps-refl : (d : Driver) → Keeps d d
Keeps-refl d = record {
  scan_queue = refl;
  reset_queue = refl;
  radio_queue = refl;
  connect_queue = refl;
  disconnect_queue = refl;
  no_completions = λ id h. refl;
  disciplined = λ h. h;
}

pub Keeps-trans : {a b c : Driver} → Keeps a b → Keeps b c → Keeps a c
Keeps-trans k l = record {
  scan_queue = l.scan_queue ∙ k.scan_queue;
  reset_queue = l.reset_queue ∙ k.reset_queue;
  radio_queue = l.radio_queue ∙ k.radio_queue;
  connect_queue = l.connect_queue ∙ k.connect_queue;
  disconnect_queue = l.disconnect_queue ∙ k.disconnect_queue;
  no_completions = λ id h. l.no_completions id h ∙ k.no_completions id h;
  disciplined = λ h. l.disciplined (k.disciplined h);
}

-- What the workitems rely on of a chip backend, for the ops that they call.
pub record IsBackend (ops : ChipOps) : Type 0 where
  pub start_scan_keeps : (d : Driver) → Keeps d (call_op ops.start_scan d)
  pub connect_keeps :
      (t : ConnectTarget) (d : Driver) → Keeps d (call_op (with_arg ops.connect t) d)
  pub disconnect_keeps : (d : Driver) → Keeps d (call_op ops.disconnect d)
  pub reset_keeps : (d : Driver) → Keeps d (call_op ops.reset d)

-- So is a step that sends nothing and changes no queue.
pub quiet-Keeps :
    (d e : Driver)
    → e.scan_queue ≡ d.scan_queue
    → e.reset_queue ≡ d.reset_queue
    → e.radio_queue ≡ d.radio_queue
    → e.connect_queue ≡ d.connect_queue
    → e.disconnect_queue ≡ d.disconnect_queue
    → e.log ≡ d.log
    → Keeps d e
quiet-Keeps d e s r a c x l = record {
  scan_queue = s;
  reset_queue = r;
  radio_queue = a;
  connect_queue = c;
  disconnect_queue = x;
  no_completions = λ id h. ap (completions id) l;
  disciplined = λ h. subst IsDisciplined (sym l) h;
}

-- So is a release of pool memory after it.
pub free_block-Keeps : {d e : Driver} → Keeps d e → Keeps d (free_block e)
free_block-Keeps {d} {e} k =
    Keeps-trans k (quiet-Keeps e (free_block e) refl refl refl refl refl refl)

pub freed-Keeps : (d : Driver) → Keeps d (emit generated_freed d)
freed-Keeps d = record {
  scan_queue = refl;
  reset_queue = refl;
  radio_queue = refl;
  connect_queue = refl;
  disconnect_queue = refl;
  no_completions = λ id h. append-nil (completions id d.log);
  disciplined = λ h. h;
}

code-ne :
    (id other : IndicationId)
    → is_completion id ≡ true
    → is_completion other ≡ false
    → (code id == code other) ≡ false
code-ne id other h k = ground arith

-- An unsolicited indication under transaction id 0 is such a step.
pub unsolicited-Keeps :
    (d : Driver) (id : IndicationId) (m : Message)
    → is_completion id ≡ false
    → m.header.transaction_id ≡ 0
    → Keeps d (emit (indicated id m) d)
unsolicited-Keeps d id m h z = record {
  scan_queue = refl;
  reset_queue = refl;
  radio_queue = refl;
  connect_queue = refl;
  disconnect_queue = refl;
  no_completions = λ own k. rw (code-ne own id k h) (append-nil (completions own d.log));
  disciplined = λ k. (inr z, k);
}

-- Of the ops that handlers call: they change nothing but the state of the chip.
pub record IsLocal (ops : ChipOps) : Type 0 where
  pub set_radio :
      (on : Bool) (d : Driver)
      → call_op (with_arg ops.set_radio on) d
        ≡ record d { fake = (call_op (with_arg ops.set_radio on) d).fake }
  pub program_key :
      (op : KeyDescriptor → Driver → Status × Driver) (k : KeyDescriptor) (d : Driver)
      → ops.program_key ≡ some op
      → (op k d).1 ≡ record d { fake = (op k d).1.fake }
  pub remove_all_keys :
      (d : Driver)
      → call_op ops.remove_all_keys d ≡ record d { fake = (call_op ops.remove_all_keys d).fake }
  pub set_default_key_id :
      (id : ℕ) (d : Driver)
      → call_op (with_arg ops.set_default_key_id id) d
        ≡ record d { fake = (call_op (with_arg ops.set_default_key_id id) d).fake }
