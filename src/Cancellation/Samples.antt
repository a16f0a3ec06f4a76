-- ===== src/Cancellation/Samples.antt =====
-- A small run of the registry of turns (apps/desktop/src-tauri/src/turn_cancellation.rs), at which the
-- theorem is applied.
use m_i_o.Prelude.{◌≡◌, refl, true, List, [], ◌∷◌, ok}
use m_i_o.Text.{lit}
use m_i_o.Cancellation.{Turns, RegisteredTurn, register, default}
use m_i_o.Cancellation.Tracking.{Call, registers, cancels, drops, after_calls}
use m_i_o.Cancellation.Registered.{registered_turn_cancelled}

abbrev earlier : List Call
earlier = registers (lit "r1") (lit "d1") ∷ cancels (lit "r1") ∷ []

abbrev later : List Call
later =
    cancels (lit "r2")
    ∷ registers (lit "r2") (lit "d3")
    ∷ drops (record { dispatch_id = lit "d1"; cancellation = 0 })
    ∷ cancels (lit "r1")
    ∷ []

registered_turn_cancelled_example :
    (after_calls
        (register (after_calls default earlier) (lit "r1") (lit "d2")).0
        later).flags.cancelled
      1
    ≡ true
unfolding register after_calls m_i_o.Cancellation.Tracking.after_call m_i_o.Cancellation.cancel_room
    m_i_o.Command.Maps.lookup m_i_o.Command.Maps.insert m_i_o.Prelude.list_beq m_i_o.Prelude.any
    m_i_o.Cancellation.cancel_turns m_i_o.Prelude.filter m_i_o.Cancellation.new_flag
    m_i_o.Cancellation.cancel
registered_turn_cancelled_example =
    registered_turn_cancelled earlier later (lit "r1") (lit "d2") refl refl
