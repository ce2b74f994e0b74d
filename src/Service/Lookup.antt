-- ===== src/Service/Lookup.antt =====
-- Requests of the fixture whose body is JSON and has a key.
use Prim.Native.String as S
use cleat_ports.Base.{suc, String, true, some, ◌≡◌, ◌≢◌, refl}
use cleat_ports.Base.Int.{ℤ, pos}
use cleat_ports.Base.Json.{codes, Fields, text, read_object, feed, step}
use cleat_ports.Service.{Python, body_of, truthy, int_or, answer_call, do_call, operation_of}
use cleat_ports.Service.State.{Tables, named, get, recorded}
use cleat_ports.Service.Threads.{serve_alone, finish}

-- `json.loads` reads what the grammar of JSON says.
pub record ReadsJson (py : Python) : Type 0 where
  pub reads : (raw : String) (req : Fields) → read_object raw ≡ some req → py.loads raw ≡ some req

pub key-truthy : (key : String) → key ≢ "" → truthy (some (text (codes key))) ≡ true
key-truthy S.[] h = absurd (h refl)
key-truthy (S.◌∷◌ c key) h = refl

module _ (py : Python) (reads : ReadsJson py) where
  loads_body :
      (raw : String) (req : Fields) → read_object raw ≡ some req → py.loads (body_of raw) ≡ some req
  unfolding read_object feed step
  loads_body S.[] req read = absurd (cc)
  loads_body (S.◌∷◌ c raw) req read = reads.reads (S.◌∷◌ c raw) req read

  pub serve_alone-key :
      (path raw key : String) (t : Tables) (req : Fields) (fail_times : ℤ)
      → read_object raw ≡ some req
      → get (codes "key") req ≡ some (text (codes key))
      → key ≢ ""
      → int_or py "fail_times" (pos 0) req ≡ some fail_times
      → serve_alone py path raw t ≡ (
          finish py
            (answer_call py req
              (text (codes key))
              fail_times
              (operation_of path)
              (suc (t.counts (named (codes key)))))
            (recorded (named (codes key)) (operation_of path) t))
  unfolding serve_alone do_call
  serve_alone-key path raw key t req fail_times read at_key some_key times =
      rw (loads_body raw req read, at_key, key-truthy key some_key, times) refl
