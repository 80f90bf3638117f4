-- ===== src/System/Messages.antt =====
-- The handlers that leave the messages waiting for delivery alone.
use old_derecho.Base.{ℕ, ◌≡◌, Bool, some, arith}
use old_derecho.Group.{Buffer, Group}
use old_derecho.Group.Receive.{receive_destination}
use old_derecho.Group.Stable.{stability_trig}
use old_derecho.Group.Send.{get_position, send, send_loop_turn}

pub receive_destination-messages :
    (g g' : Group) (sender length : ℕ) (b : Buffer)
    → receive_destination g sender length ≡ some (b, g')
    → g'.locally_stable_messages ≡ g.locally_stable_messages
unfolding receive_destination
receive_destination-messages g g' sender length b e = ground arith

pub get_position-messages :
    (g g' : Group) (payload turns : ℕ) (cooked : Bool) (b : Buffer)
    → get_position g payload turns cooked ≡ some (b, g')
    → g'.locally_stable_messages ≡ g.locally_stable_messages
unfolding get_position
get_position-messages g g' payload turns cooked b e = ground arith

pub send-messages :
    (g g' : Group) (sent : Bool)
    → send g ≡ some (sent, g')
    → g'.locally_stable_messages ≡ g.locally_stable_messages
unfolding send
send-messages g g' sent e = ground arith

pub send_loop_turn-messages :
    (g g' : Group) (accepted : Bool)
    → send_loop_turn accepted g ≡ some g'
    → g'.locally_stable_messages ≡ g.locally_stable_messages
unfolding send_loop_turn
send_loop_turn-messages g g' accepted e = ground arith

pub stability_trig-messages :
    (g : Group) → (stability_trig g).locally_stable_messages ≡ g.locally_stable_messages
unfolding stability_trig
stability_trig-messages g = ground arith
