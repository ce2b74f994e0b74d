-- ===== src/Service/Routes.antt =====
-- The paths of scripts/fixture-service.py that a GET reads a key from: none of them hides another.
use Prim.Native.String as S
use cleat_ports.Base.{
  List, length, String, ◌++◌, Bool, true, false, not, ◌||◌, [], ◌∷◌, none, some, ◌==◌, ◌≡◌, refl,
  ◌∙◌, ap, Bool-cases, inl, inr, eq_iff, eq_refl,
}
use package.text.Mathlib.TextLemmas.{nil-append, cons-append}
use cleat_ports.Base.Int.{pos}
use cleat_ports.Base.Json.{codes}
use cleat_ports.Service.{Python, after, do_get, sent, said, counted, texts}
use cleat_ports.Service.State.{Tables, Key, named, empty_tables}
use cleat_ports.Service.Threads.{Thread, Turns}
use cleat_ports.Service.Threads.Occupancy.{holders}
use cleat_ports.Service.Threads.Recording.{calls_in_order, log-calls_in_order}
use cleat_ports.Service.Threads.HighWater.{highest, counters_exact}

-- Whether two texts differ at a place that both have.
abbrev apart : String → String → Bool
apart (S.◌∷◌ c p) (S.◌∷◌ d q) = not (S.◌∷◌ c "" == S.◌∷◌ d "") || apart p q
apart _ _ = false

after-append : (p s : String) → after p (p ++ s) ≡ some s
after-append S.[] s = ap some (nil-append s)
after-append (S.◌∷◌ c p) s = rw (cons-append c p s, eq_refl (S.◌∷◌ c "")) (after-append p s)

apart-after : (p q s : String) → apart p q ≡ true → after p (q ++ s) ≡ none
apart-after S.[] q s e = cc
apart-after (S.◌∷◌ c p) S.[] s e = cc
apart-after (S.◌∷◌ c p) (S.◌∷◌ d q) s e =
    rw (cons-append d q s) (elim (Bool-cases (S.◌∷◌ c "" == S.◌∷◌ d "")) [
      | inl same ↦ rw (same) (apart-after p q s (rw (same) at e))
      | inr differ ↦ rw (differ) refl
    ])

apart-eq : (p q s : String) → apart p q ≡ true → after p p ≡ some "" → ((q ++ s) == p) ≡ false
apart-eq p q s e whole = elim (Bool-cases ((q ++ s) == p)) [
  | inl same ↦
      let here : after p p ≡ none = (rw ((eq_iff _ _).0 same) at (apart-after p q s e)) in
      absurd (cc)
  | inr other ↦ other
]

abbrev key_of_path : String → Key
key_of_path key = named (codes key)

get_calls :
    (key : String) (t : Tables)
    → do_get ("/calls/" ++ key) t
      ≡ sent (pos 200) (("key", said key) ∷ ("attempts", counted (t.counts (key_of_path key))) ∷ [])
unfolding do_get
get_calls key t = rw (apart-eq "/healthz" "/calls/" key refl refl, after-append "/calls/" key) refl

get_inflight :
    (key : String) (t : Tables)
    → do_get ("/inflight/" ++ key) t
      ≡ sent
          (pos 200)
          (("key", said key) ∷ ("inflight", counted (t.inflight (key_of_path key))) ∷ [])
unfolding do_get
get_inflight key t =
    rw
      (
        apart-eq "/healthz" "/inflight/" key refl refl,
        apart-after "/calls/" "/inflight/" key refl,
        after-append "/inflight/" key,
      )
      refl

get_peak :
    (key : String) (t : Tables)
    → do_get ("/peak/" ++ key) t
      ≡ sent (pos 200) (
          ("key", said key)
          ∷ ("peak", counted (t.peak (key_of_path key)))
          ∷ ("attempts", counted (t.counts (key_of_path key)))
          ∷ [])
unfolding do_get
get_peak key t =
    rw
      (
        apart-eq "/healthz" "/peak/" key refl refl,
        apart-after "/calls/" "/peak/" key refl,
        apart-after "/inflight/" "/peak/" key refl,
        after-append "/peak/" key,
      )
      refl

get_log :
    (key : String) (t : Tables)
    → do_get ("/log/" ++ key) t
      ≡ sent (pos 200) (("key", said key) ∷ ("calls", texts (t.log (key_of_path key))) ∷ [])
unfolding do_get
get_log key t =
    rw
      (
        apart-eq "/healthz" "/log/" key refl refl,
        apart-after "/calls/" "/log/" key refl,
        apart-after "/inflight/" "/log/" key refl,
        apart-after "/peak/" "/log/" key refl,
        after-append "/log/" key,
      )
      refl

-- In every interleaving of call and release requests, from the start of the service on, and for every
-- key of a path: GET /log/ answers the operations of the key's calls in the order of the turns at which
-- they were recorded, GET /calls/ how many these are, GET /inflight/ the number of threads that are
-- between their entry and their leaving under the key, and GET /peak/ the highest that this number has
-- ever been. A call is recorded when its body is an object with a key that is not empty and a number of
-- failures, if any, that int() reads.
pub answers_exact :
    (py : Python) (key : String) (past : List (List Thread)) (t : Tables) (ths : List Thread)
    (turns : Turns py empty_tables [] past t ths)
    → (do_get ("/log/" ++ key) t
        ≡ sent (pos 200) (
            ("key", said key)
            ∷ ("calls", texts (calls_in_order py (named (codes key)) turns))
            ∷ []))
      × (do_get ("/calls/" ++ key) t
          ≡ sent (pos 200) (
              ("key", said key)
              ∷ ("attempts", counted (length (calls_in_order py (named (codes key)) turns)))
              ∷ []))
      × (do_get ("/inflight/" ++ key) t
          ≡ sent
              (pos 200)
              (("key", said key) ∷ ("inflight", counted (holders (named (codes key)) ths)) ∷ []))
      × (do_get ("/peak/" ++ key) t
          ≡ sent (pos 200) (
              ("key", said key)
              ∷ ("peak", counted (highest (named (codes key)) past))
              ∷ ("attempts", counted (length (calls_in_order py (named (codes key)) turns)))
              ∷ []))
answers_exact py key past t ths turns =
    let (now, most, agree) = counters_exact py (named (codes key)) past t ths turns in
    let in_order = log-calls_in_order py (named (codes key)) past t ths turns in
    (
      get_log key t ∙ rw (in_order) refl,
      get_calls key t ∙ rw (agree, in_order) refl,
      get_inflight key t ∙ rw (now) refl,
      get_peak key t ∙ rw (most, agree, in_order) refl,
    )
