-- ===== src/Carport/Fsm/Paths.antt =====
-- The two readings of the transition table.
use gohome.Prelude.{◌≡◌, ap, List, ◌↔◌, true, false, Option, none, some, lookup}
use gohome.Carport.Fsm.{
  State, Trigger, state_beq, state_beq_iff, transitions, is_legal, next, moved, refused,
  no_transitions, illegal_trigger, state_eq, trigger_eq,
}

-- `next` moves to a state if and only if `is_legal` accepts that step.
pub next-is_legal :
    (from to : State) (trigger : Trigger)
    → (next from trigger ≡ moved to) ↔ (is_legal from trigger to ≡ true)
unfolding next is_legal
next-is_legal from to trigger = of_row (lookup from transitions)
  where
    of_entry :
        (o : Option State)
        → ((elim o [ none ↦ refused (illegal_trigger trigger from) | some t ↦ moved t ]) ≡ moved to)
          ↔ ((elim o [ none ↦ false | some t ↦ state_beq t to ]) ≡ true)
    of_entry none = (λ h. cc, λ h. cc)
    of_entry (some t) = (λ h. (state_beq_iff t to).1 (cc), λ h. ap moved ((state_beq_iff t to).0 h))

    of_row :
        (o : Option (List (Trigger × State)))
        → ((elim o [
          | none ↦ refused (no_transitions from)
          | some m ↦ elim (lookup trigger m) [
            | none ↦ refused (illegal_trigger trigger from)
            | some t ↦ moved t
          ]
        ])
            ≡ moved to)
          ↔ ((elim o [
            | none ↦ false
            | some m ↦ elim (lookup trigger m) [ none ↦ false | some t ↦ state_beq t to ]
          ])
              ≡ true)
    of_row none = (λ h. cc, λ h. cc)
    of_row (some m) = of_entry (lookup trigger m)
