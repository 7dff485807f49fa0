-- ===== src/World.antt =====
-- The state that the operations work on: the client, what it has done to its surroundings, and the
-- heap as two counters.
pub mod Steady
use ryan_mqtt.Prelude.{ℕ, ◌+◌, ◌≡◌, Bool, List, if◌then◌else◌}
use ryan_mqtt.Public.{Event}
use ryan_mqtt.Client.{Client, MsgHandler, AckHandler, MsgData, owned}
use ryan_mqtt.Platform.{Env}

-- What the event callback is handed, `eventData`.
pub data EventData : Type 0 where
  no_data : EventData
  ack_data : AckHandler → EventData
  msg_data : MsgHandler → EventData
  message : MsgData → EventData
  connect_status : ℕ → EventData
  count_data : ℕ → EventData

pub data Action : Type 0 where
  called : Event → EventData → Action
  closed : Action
  network_destroyed : Action
  delayed : ℕ → Action
  thread_stopped : Action
  thread_destroyed : Action
  client_freed : ℕ → Action

-- `tick` numbers the calls of the platform. `wire` is all that the network took, in order; `trace`
-- the calls of the event callback and of the platform functions named by `Action`, the last one
-- first. `dangling` says that the code used a block that it had freed: C gives the state no meaning
-- from then on.
pub record World : Type 0 where
  pub client : Client
  pub tick : ℕ
  pub mallocs : ℕ
  pub frees : ℕ
  pub wire : List ℕ
  pub trace : List Action
  pub dangling : Bool

abbrev pub M : Type 0 → Type 0
M A = World → A × World

abbrev pub pure : {A : Type 0} → A → M A
pure a w = (a, w)

infixl 5 ◌>>=◌ ◌>>◌
abbrev pub ◌>>=◌ : {A B : Type 0} → M A → (A → M B) → M B
◌>>=◌ m f w = let (a, w') = m w in f a w'

abbrev pub ◌>>◌ : {B : Type 0} → M (Unit {0}) → M B → M B
m >> k = m >>= λ _. k

-- An operation that only changes the state.
abbrev pub run : (World → World) → M (Unit {0})
run f w = (tt, f w)

abbrev pub gets : {A : Type 0} → (World → A) → M A
gets f w = (f w, w)

-- `platformMemoryMalloc`
unfoldable pub malloc : Env → M Bool
malloc env w =
    let answer = env.malloc_ok w.tick in
    (answer, record w { tick = w.tick + 1; mallocs = if answer then w.mallocs + 1 else w.mallocs })

-- `platformMemoryFree`
unfoldable pub free : World → World
free w = record w { frees = w.frees + 1 }

-- Allocations and frees are balanced on the way from `w` to `v`: the number of live
-- blocks changes by what the session owns more or less, apart from `held` blocks that the caller
-- now owns.
abbrev pub Balanced : ℕ → World → World → Type 0
Balanced held w v =
    v.mallocs + w.frees + owned w.client ≡ w.mallocs + v.frees + owned v.client + held
