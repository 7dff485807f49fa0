-- ===== src/Handler/Balance.antt =====
-- The blocks of the two ack lists, split at a node.
use ryan_mqtt.Prelude.{◌+◌, ◌≡◌, List, [], ◌∷◌, ◌++◌, arith, Bool, keep, reject}
use ryan_mqtt.Client.{AckHandler, ack_blocks, handler_blocks}
use ryan_mqtt.Handler.{ack_handler_destroy, msg_handler_destroy}
use ryan_mqtt.World.{free, World}

pub ack_blocks-append :
    (xs ys : List AckHandler) → ack_blocks (xs ++ ys) ≡ ack_blocks xs + ack_blocks ys
ack_blocks-append [] ys = omega arith
ack_blocks-append (x ∷ xs) ys = omega (arith, ack_blocks-append xs ys)

-- Destroying a handler frees all its blocks, and nothing else.
pub ack_handler_destroy_lem :
    (h : AckHandler) (w : World)
    → ack_handler_destroy h w ≡ record w { frees = w.frees + handler_blocks h }
unfolding ack_handler_destroy msg_handler_destroy free
ack_handler_destroy_lem h w = ground arith

pub ack_blocks-keep-reject :
    (p : AckHandler → Bool) (hs : List AckHandler)
    → ack_blocks (keep p hs) + ack_blocks (reject p hs) ≡ ack_blocks hs
ack_blocks-keep-reject p [] = omega arith
ack_blocks-keep-reject p (h ∷ hs) = ground (arith, ack_blocks-keep-reject p hs)
