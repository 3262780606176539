-- ===== src/WorkItems/Completing.antt =====
-- A step of a workitem of device.cpp that completes one task.
use mathlib.Core.List.{append-nil}
use wificx_skeleton.Prelude.{
  ℕ, ◌≡◌, refl, sym, ap, ◌∙◌, inl, inr, Bool, true, [], ◌∷◌, ◌++◌, Option, none, some, ◌==◌,
  Bool-cases, if◌then◌else◌, arith,
}
use wificx_skeleton.Platform.{IndicationId, Message}
use wificx_skeleton.Platform.System.{System}
use wificx_skeleton.Device.{Driver}
use wificx_skeleton.Device.Effects.{
  is_completion, code, completions, IsDisciplined, Keeps, quiet-Keeps,
}
use wificx_skeleton.Tlv.{fresh_header, indicate_task_complete}
use wificx_skeleton.Tlv.Indications.{has_memory, indicate_task_complete_lem}
use wificx_skeleton.WorkItems.{complete_request}

-- What WdiIndicateTaskComplete sends: the port and the transaction, status success, and no TLV.
abbrev pub completion : ℕ → ℕ → Message
completion port txn = record { header = fresh_header port txn; tlv = [] }

-- A step that completes one task of the OS if `sent`, and is such as `Keeps` allows otherwise.
pub record Completes (id : IndicationId) (port txn : ℕ) (sent : Bool) (d e : Driver) : Type 0 where
  pub scan_queue : e.scan_queue ≡ d.scan_queue
  pub reset_queue : e.reset_queue ≡ d.reset_queue
  pub radio_queue : e.radio_queue ≡ d.radio_queue
  pub connect_queue : e.connect_queue ≡ d.connect_queue
  pub disconnect_queue : e.disconnect_queue ≡ d.disconnect_queue
  pub completed :
      completions id e.log ≡ completions id d.log ++ (if sent then completion port txn ∷ [] else [])
  pub disciplined : IsDisciplined d.log → IsDisciplined e.log

module _ {id : IndicationId} {port txn : ℕ} {sent : Bool} {a b c : Driver} where
  pub Keeps-Completes :
      is_completion id ≡ true
      → Keeps a b
      → Completes id port txn sent b c
      → Completes id port txn sent a c
  Keeps-Completes h k l = record {
    scan_queue = l.scan_queue ∙ k.scan_queue;
    reset_queue = l.reset_queue ∙ k.reset_queue;
    radio_queue = l.radio_queue ∙ k.radio_queue;
    connect_queue = l.connect_queue ∙ k.connect_queue;
    disconnect_queue = l.disconnect_queue ∙ k.disconnect_queue;
    completed =
        l.completed
        ∙ ap (λ xs. xs ++ (if sent then completion port txn ∷ [] else [])) (k.no_completions id h);
    disciplined = λ x. l.disciplined (k.disciplined x);
  }

  pub Completes-Keeps :
      is_completion id ≡ true
      → Completes id port txn sent a b
      → Keeps b c
      → Completes id port txn sent a c
  Completes-Keeps h k l = record {
    scan_queue = l.scan_queue ∙ k.scan_queue;
    reset_queue = l.reset_queue ∙ k.reset_queue;
    radio_queue = l.radio_queue ∙ k.radio_queue;
    connect_queue = l.connect_queue ∙ k.connect_queue;
    disconnect_queue = l.disconnect_queue ∙ k.disconnect_queue;
    completed = l.no_completions id h ∙ k.completed;
    disciplined = λ x. l.disciplined (k.disciplined x);
  }

code_refl : (id : IndicationId) → (code id == code id) ≡ true
code_refl id = ground arith

pub request-Keeps : (sys : System) (r : Option ℕ) (d : Driver) → Keeps d (complete_request sys r d)
unfolding complete_request
request-Keeps sys none d = quiet-Keeps d d refl refl refl refl refl refl
request-Keeps sys (some req) d = record {
  scan_queue = refl;
  reset_queue = refl;
  radio_queue = refl;
  connect_queue = refl;
  disconnect_queue = refl;
  no_completions = λ id h. append-nil (completions id d.log);
  disciplined = λ h. h;
}

module _ (sys : System) where
  pub complete_task :
      (id : IndicationId) (port txn : ℕ) (d : Driver)
      → is_completion id ≡ true
      → Completes id port txn
          (has_memory sys sys.header_size d)
          d
          (indicate_task_complete sys id port txn d).1
  complete_task id port txn d h =
      let same = (indicate_task_complete_lem sys id port txn d).1 in
      elim (Bool-cases (has_memory sys sys.header_size d)) [
        | inl e ↦
            rw (same, e)
              record {
                scan_queue = refl;
                reset_queue = refl;
                radio_queue = refl;
                connect_queue = refl;
                disconnect_queue = refl;
                completed = rw (code_refl id) refl;
                disciplined = λ x. (inl h, x);
              }
        | inr e ↦
            rw (same, e)
              record {
                scan_queue = refl;
                reset_queue = refl;
                radio_queue = refl;
                connect_queue = refl;
                disconnect_queue = refl;
                completed = sym (append-nil (completions id d.log));
                disciplined = λ x. x;
              }
      ]
