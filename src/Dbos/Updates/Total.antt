-- ===== src/Dbos/Updates/Total.antt =====
-- What HandleUpdatable has applied.
use mathlib.Core.List.{append-nil}
use cleat_ports.Base.{
  Bool-cases, inl, inr, ℕ, ◌+◌, ◌≤◌, String, List, [], ◌∷◌, ◌==◌, ◌≡◌, refl, if◌then◌else◌, arith,
}
use cleat_ports.Base.Int.{ℤ, pos, negsuc, pos_part, wrap64, ◌+ℤ◌, max_int, leb_ℤ}
use cleat_ports.Base.Format.{Unicode}
use cleat_ports.Host.Calls.{Result, ok, err, Update}
use cleat_ports.Host.Run.{Host, run, returned}
use cleat_ports.Host.Logic.{
  Ensures-ret, Ensures-call, Ensures-check, Ensures-check_field, run-Ensures,
}
use cleat_ports.Host.History.{updates}
use cleat_ports.Dbos.Updates.{
  bump_unless, validate_bump, serve_bumps, applied_report, handle_updatable,
}

-- What an update adds: its number if it is a bump with a positive one, and nothing otherwise.
abbrev pub decoded : Result ℤ → ℕ
decoded (ok n) = pos_part n
decoded (err e) = 0

module _ (by_of : String → Result ℤ) where
  abbrev pub bump_total : List Update → ℕ
  bump_total [] = 0
  bump_total (up ∷ us) =
      (if up.name == "bump" then decoded (by_of up.payload) else 0) + bump_total us

module _ ⦃u : Unicode⦄ (by_of : String → Result ℤ) where
  bump_once :
      (payload : String) (r : Result ℤ) (n : ℕ)
      → by_of payload ≡ r
      → n + decoded r ≤ max_int
      → bump_unless by_of (validate_bump by_of payload) payload (pos n) ≡ pos (n + decoded r)
  unfolding wrap64 ◌+ℤ◌
  bump_once payload (err e) n is_r fits = rw (is_r) (ground arith)
  bump_once payload (ok (pos k)) n is_r fits = elim (Bool-cases (leb_ℤ (pos k) (pos 0))) [
    | inl z ↦ rw (is_r, z) (ground arith)
    | inr z ↦ rw (is_r, z) (ground arith)
  ]
  bump_once payload (ok (negsuc k)) n is_r fits = rw (is_r) (ground arith)

  serve_bumps-total :
      (us : List Update) (n : ℕ)
      → n + bump_total by_of us ≤ max_int
      → serve_bumps by_of us (pos n) ≡ pos (n + bump_total by_of us)
  unfolding serve_bumps
  serve_bumps-total [] n fits = ground arith
  serve_bumps-total (up ∷ us) n fits = elim (Bool-cases (up.name == "bump")) [
    | inl e ↦
        let enough : n + decoded (by_of up.payload) + bump_total by_of us ≤ max_int =
          ground arith in
        rw (e, bump_once up.payload (by_of up.payload) n refl (omega arith))
          (ground (arith, serve_bumps-total us (n + decoded (by_of up.payload)) enough))
    | inr e ↦ rw (e) (ground (arith, serve_bumps-total us n (ground arith)))
  ]

  -- If the positive numbers of the dispatched bumps add up to an int, a result that HandleUpdatable
  -- returns, whatever else the host does, reports exactly that sum: a refused or undecodable bump adds
  -- nothing.
  pub applied_total :
      (h : Host) (s : h.State) (key : String) (timeout_ms : ℤ) (text : String)
      → bump_total by_of (updates (run h (handle_updatable by_of key timeout_ms) s).trace) ≤ max_int
      → (run h (handle_updatable by_of key timeout_ms) s).outcome ≡ returned (ok text)
      → text
        ≡ applied_report (
            pos
              (bump_total by_of (updates (run h (handle_updatable by_of key timeout_ms) s).trace)))
  unfolding handle_updatable
  applied_total h s key timeout_ms text =
      run-Ensures h
        {P = λ tr o.
          bump_total by_of (updates tr) ≤ max_int
          → o ≡ returned (ok text)
          → text ≡ applied_report (pos (bump_total by_of (updates tr)))}
        s
        (Ensures-call _ _ (λ fits x. cc)
          λ a.
            Ensures-call _ _ (λ fits x. cc)
              λ called.
                Ensures-check _ _ _ (λ e f. Ensures-ret _ λ fits x. cc)
                  λ resp g.
                    Ensures-call _ _ (λ fits x. cc)
                      λ b.
                        Ensures-call _ _ (λ fits x. cc)
                          λ r.
                            Ensures-call _ _ (λ fits x. cc)
                              λ us.
                                Ensures-check_field _ _ _ (λ e f. Ensures-ret _ λ fits x. cc)
                                  λ fine. Ensures-ret _ λ fits x.
                                    let small = rw (append-nil us) at fits in
                                    let total = serve_bumps-total us 0 (omega arith) in
                                    rw (append-nil us) (ground (arith, total)))
