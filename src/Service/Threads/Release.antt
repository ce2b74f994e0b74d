-- ===== src/Service/Threads/Release.antt =====
-- What POST /release/ does to the calls that are held.
use cleat_ports.Base.{ℕ, ltb, true, List, ◌≡◌}
use cleat_ports.Service.{Python}
use cleat_ports.Service.State.{Tables, Key}
use cleat_ports.Service.Threads.{Thread, waiting, leaving, entering, answered}
use cleat_ports.Service.Threads.Epochs.{At}

-- A held call whose wait is over, or that is past it.
abbrev pub IsFreed : Tables → Thread → Type 0
IsFreed t (entering k seen p) = ltb seen (t.released k) ≡ true
IsFreed t (waiting k seen p) = ltb seen (t.released k) ≡ true
IsFreed t (leaving k p) = Unit
IsFreed t (answered r) = Unit
IsFreed t _ = ⊥

-- A thread that is in flight under the key, or about to be.
abbrev pub IsHeldUnder : Key → Thread → Type 0
IsHeldUnder j (entering k seen p) = k ≡ j
IsHeldUnder j (waiting k seen p) = k ≡ j
IsHeldUnder j _ = ⊥

module _ (py : Python) where
  -- The thread of that number after a turn, and that it is freed.
  abbrev FreedAt : ℕ → Tables → List Thread → Type 0
  FreedAt i t ths = (th : Thread) × At th i ths × IsFreed t th
