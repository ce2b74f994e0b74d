-- ===== src/Samples/Nondeterminism/Sync.antt =====
-- Go's channels of strings, sync.Mutex and sync.WaitGroup, as far as
-- ports/samples-go/workflows/nondeterminism uses them: an operation goes through, or blocks its
-- goroutine, or ends the program.
use cleat_ports.Base.{
  ℕ, zero, suc, ◌<◌, ltb, String, Bool, true, false, List, [], ◌∷◌, append, length, ◌≡◌, refl,
  arith, if◌then◌else◌,
}

pub data Move {ℓ} (A : Type ℓ) : Type ℓ where
  moved : A → Move A
  blocked : Move A
  crashed : String → Move A

-- the move that goes on with what an operation gave
abbrev pub move {ℓ κ} : {A : Type ℓ} {B : Type κ} → (A → B) → Move A → Move B
move f (moved a) = moved (f a)
move f blocked = blocked
move f (crashed text) = crashed text

pub record Channel : Type 0 where
  pub capacity : ℕ
  pub buffer : List String
  pub closed : Bool

-- `make(chan string, n)`, with n above zero
abbrev pub make : ℕ → Channel
make n = record { capacity = n; buffer = []; closed = false }

-- `ch <- text`
unfoldable pub send : Channel → String → Move Channel
send ch text =
    if ch.closed
    then crashed "send on closed channel"
    else if ltb (length ch.buffer) ch.capacity
    then moved (record ch { buffer = append ch.buffer text })
    else blocked

-- `close(ch)`
unfoldable pub close : Channel → Move Channel
close ch =
    if ch.closed then crashed "close of closed channel" else moved (record ch { closed = true })

-- A receive gives the first text with the rest of the channel, or finds the channel closed.
pub data Received : Type 0 where
  received : String → Channel → Received
  drained : Received
  waits : Received

unfoldable pub receive : Channel → Received
receive ch = elim ch.buffer [
  | [] ↦ if ch.closed then drained else waits
  | text ∷ rest ↦ received text (record ch { buffer = rest })
]

-- A mutex is whether it is locked; `mu.Lock()` and `mu.Unlock()`.
unfoldable pub lock : Bool → Move Bool
lock true = blocked
lock false = moved true

unfoldable pub unlock : Bool → Move Bool
unlock true = moved false
unlock false = crashed "sync: unlock of unlocked mutex"

-- A wait group is its counter; `wg.Done()`.
unfoldable pub wait_done : ℕ → Move ℕ
wait_done zero = crashed "sync: negative WaitGroup counter"
wait_done (suc n) = moved n

-- The operation does not end the program, and `P` holds of what it gives.
abbrev pub Fine {ℓ} : {A : Type ℓ} → (A → Type 0) → Move A → Type 0
Fine P (moved a) = P a
Fine P blocked = Unit
Fine P (crashed text) = ⊥

module _ {A : Type 0} (P : A → Type 0) where
  pub Fine-moved : (m : Move A) (a : A) → Fine P m → m ≡ moved a → P a
  Fine-moved (moved b) a p e = let same : b ≡ a = cc in (rw (same) at p)
  Fine-moved blocked a p e = cc
  Fine-moved (crashed text) a p e = cc

  pub lock-Fine : (b : Bool) (f : Bool → A) → (b ≡ false → P (f true)) → Fine P (move f (lock b))
  unfolding lock
  lock-Fine true f h = tt
  lock-Fine false f h = h refl

  pub unlock-Fine : (b : Bool) (f : Bool → A) → b ≡ true → P (f false) → Fine P (move f (unlock b))
  unfolding unlock
  unlock-Fine true f e h = h
  unlock-Fine false f e h = cc

  pub wait_done-Fine : (n m : ℕ) (f : ℕ → A) → n ≡ suc m → P (f m) → Fine P (move f (wait_done n))
  unfolding wait_done
  wait_done-Fine n m f e h = rw (e) h

  pub send-Fine :
      (ch : Channel) (text : String) (f : Channel → A)
      → ch.closed ≡ false
      → length ch.buffer < ch.capacity
      → P (f (record ch { buffer = append ch.buffer text }))
      → Fine P (move f (send ch text))
  unfolding send
  send-Fine ch text f e fits h =
      let room : ltb (length ch.buffer) ch.capacity ≡ true = ground arith in
      let h' = (rw (e) at h) in rw (e, room) h'

  pub close-Fine :
      (ch : Channel) (f : Channel → A)
      → ch.closed ≡ false
      → P (f (record ch { closed = true }))
      → Fine P (move f (close ch))
  unfolding close
  close-Fine ch f e h = rw (e) h

pub receive-drained : (ch : Channel) → ch.buffer ≡ [] → ch.closed ≡ true → receive ch ≡ drained
unfolding receive
receive-drained ch e over = rw (e, over) refl

pub receive-received :
    (ch : Channel) (text : String) (rest : List String)
    → ch.buffer ≡ text ∷ rest
    → receive ch ≡ received text (record ch { buffer = rest })
unfolding receive
receive-received ch text rest e = rw (e) refl
