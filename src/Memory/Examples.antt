-- ===== src/Memory/Examples.antt =====
-- The theorem on the two memories at a session of four messages.
use you_mi_agent.Prelude.{String, ◌≡◌, refl, none, List, [], ◌∷◌}
use you_mi_agent.Text.{codes}
use you_mi_agent.Memory.{Message, slice_last}
use you_mi_agent.Memory.Lstm.{init, classify}
use you_mi_agent.Memory.Sessions.{
  Op, op_message, op_session_end, run, long_messages, short_messages, memories_are_last,
}

abbrev from_user : String → Message
from_user content = record { role = codes "user"; content = codes content }

abbrev session : List Op
session =
    op_message (from_user "hi")
    ∷ op_session_end
    ∷ op_message (from_user "Always test")
    ∷ op_message (from_user "run it")
    ∷ op_message (from_user "never skip")
    ∷ op_message (from_user "stop")
    ∷ []

keeps_the_last :
    (run session (init (codes "always" ∷ codes "never" ∷ []) 2 1 none)).long_term
    ≡ from_user "never skip" ∷ []
unfolding run init
keeps_the_last = refl

memories_are_last_example :
    ((run session (init (codes "always" ∷ codes "never" ∷ []) 2 1 none)).long_term
      ≡ slice_last 1
          (long_messages (classify (codes "always" ∷ codes "never" ∷ []) none) session []))
    × ((run session (init (codes "always" ∷ codes "never" ∷ []) 2 1 none)).short_term
        ≡ slice_last 2
            (short_messages (classify (codes "always" ∷ codes "never" ∷ []) none) session []))
memories_are_last_example = memories_are_last (codes "always" ∷ codes "never" ∷ []) 2 1 none session
