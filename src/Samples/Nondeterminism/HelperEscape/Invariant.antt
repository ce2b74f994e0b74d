-- ===== src/Samples/Nondeterminism/HelperEscape/Invariant.antt =====
-- What holds in every state of the helper, and that each step of a goroutine keeps it.
use cleat_ports.Base.{
  ℕ, ◌+◌, ◌-◌, ◌*◌, ◌≤◌, ◌<◌, String, ◌++◌, Bool, true, false, List, [], ◌∷◌, length, replicate,
  ◌≡◌, refl, ap, ◌∙◌, arith,
}
use cleat_ports.Samples.Nondeterminism.Sync.{Channel}
use cleat_ports.Samples.Nondeterminism.HelperEscape.{
  Worker, place, set_at, Caller, testing, adding, launching, waiting, closing, ranging, returned,
  State,
}
use cleat_ports.Samples.Nondeterminism.HelperEscape.Counts.{
  total, holds, sent, running, left, length-set_at, total-set_at, total-place,
}

-- how many goroutines have been started, and for how many more the wait group counts
abbrev pub launched : Caller → ℕ
launched (testing i) = i
launched (adding i) = i
launched (launching i) = i
launched _ = 2

abbrev pub pending : Caller → ℕ
pending (launching i) = 1
pending _ = 0

abbrev pub Bounded : Caller → Type 0
Bounded (testing i) = i ≤ 2
Bounded (adding i) = i < 2
Bounded (launching i) = i < 2
Bounded _ = Unit

-- From the close of the channel on, none of `n` goroutines is running.
abbrev pub Quiet : Caller → ℕ → Type 0
Quiet closing n = n ≡ 0
Quiet (ranging out) n = n ≡ 0
Quiet (returned out) n = n ≡ 0
Quiet _ n = Unit

-- what the range over the channel makes of `out` and the texts that are left
abbrev pub joined : String → List String → String
joined out [] = out
joined out (r ∷ rs) = joined (out ++ r) rs

abbrev pub Open : String → Channel → ℕ → Type 0
Open key ch n = (ch.closed ≡ false) × (ch.capacity ≡ 2) × (ch.buffer ≡ replicate n key)

-- What the channel holds when `n` texts have been sent.
abbrev pub Buffered : String → Caller → Channel → ℕ → Type 0
Buffered key (ranging out) ch n = (ch.closed ≡ true) × (joined out ch.buffer ≡ key ++ key)
Buffered key (returned out) ch n = out ≡ key ++ key
Buffered key _ ch n = Open key ch n

abbrev pub bit : Bool → ℕ
bit false = 0
bit true = 1

pub record Inv (key : String) (s : State) : Type 0 where
  pub own : s.key ≡ key
  pub holders : total holds s.workers ≡ bit s.mu
  pub started : length s.workers ≡ launched s.caller
  pub counted : s.wg ≡ total running s.workers + pending s.caller
  pub bounded : Bounded s.caller
  pub quiet : Quiet s.caller (total running s.workers)
  pub buffered : Buffered key s.caller s.results (total sent s.workers)

-- How many steps are left at most.
abbrev pub caller_rank : Caller → Channel → ℕ
caller_rank (testing i) ch = (2 - i) * 7 + 6
caller_rank (adding i) ch = (2 - i) * 7 + 5
caller_rank (launching i) ch = (2 - i) * 7 + 4
caller_rank waiting ch = 5
caller_rank closing ch = 4
caller_rank (ranging out) ch = 1 + length ch.buffer
caller_rank (returned out) ch = 0

abbrev pub rank : State → ℕ
rank s = total left s.workers + caller_rank s.caller s.results

-- What a step leads to.
abbrev pub Next : String → State → State → Type 0
Next key s s' = Inv key s' × (rank s' < rank s)

-- While a goroutine is running, the channel is open, and no rank looks at it.
still-Open :
    (key : String) (c : Caller) (ch : Channel) (k n : ℕ)
    → Quiet c k
    → 0 < k
    → Buffered key c ch n
    → Open key ch n
still-Open key (ranging out) ch k n q some_run b = absurd (omega arith)
still-Open key (returned out) ch k n q some_run b = absurd (omega arith)
still-Open key _ ch k n q some_run b = b

any-Buffered :
    (key : String) (c : Caller) (ch : Channel) (k n : ℕ)
    → Quiet c k
    → 0 < k
    → Open key ch n
    → Buffered key c ch n
any-Buffered key (ranging out) ch k n q some_run b = absurd (omega arith)
any-Buffered key (returned out) ch k n q some_run b = absurd (omega arith)
any-Buffered key _ ch k n q some_run b = b

any-Quiet : (c : Caller) (k n : ℕ) → Quiet c k → 0 < k → Quiet c n
any-Quiet closing k n q some_run = absurd (omega arith)
any-Quiet (ranging out) k n q some_run = absurd (omega arith)
any-Quiet (returned out) k n q some_run = absurd (omega arith)
any-Quiet _ k n q some_run = tt

same_rank :
    (c : Caller) (k : ℕ) (ch ch' : Channel)
    → Quiet c k
    → 0 < k
    → caller_rank c ch' ≡ caller_rank c ch
same_rank (ranging out) k ch ch' q some_run = absurd (omega arith)
same_rank _ k ch ch' q some_run = refl

-- A goroutine's step: it goes from one place to the next, with the mutex, the channel and the wait
-- group as they are then.
module _ (key : String) (s : State) (inv : Inv key s) (i : ℕ) (w v : Worker)
    (at : place i s.workers ≡ w) (runs : running w ≡ 1) where
  pub some_run : 0 < total running s.workers
  some_run = omega (arith, total-place running i s.workers (rw (at) runs), runs, ap running at)

  pub opened : Open key s.results (total sent s.workers)
  opened = still-Open key s.caller s.results _ _ inv.quiet some_run inv.buffered

  pub count-moved :
      (f : Worker → ℕ) → total f (set_at i v s.workers) + f w ≡ total f s.workers + f v
  count-moved f = omega (arith, total-set_at f i v s.workers (rw (at) runs), ap f at)

  pub worker_moves :
      (mu' : Bool) (ch : Channel) (wg' : ℕ)
      → bit mu' + holds w ≡ bit s.mu + holds v
      → Open key ch (total sent (set_at i v s.workers))
      → wg' + running w ≡ s.wg + running v
      → left v < left w
      → Next key s (record s { workers = set_at i v s.workers; mu = mu'; results = ch; wg = wg' })
  worker_moves mu' ch wg' held still count fewer = (
    record {
      own = inv.own;
      holders = omega (arith, count-moved holds, inv.holders, held);
      started = length-set_at i v s.workers ∙ inv.started;
      counted = omega (arith, count-moved running, inv.counted, count);
      bounded = inv.bounded;
      quiet = any-Quiet s.caller _ _ inv.quiet some_run;
      buffered = any-Buffered key s.caller ch _ _ inv.quiet some_run still;
    },
    omega (arith, count-moved left, same_rank s.caller _ s.results ch inv.quiet some_run, fewer),
  )
