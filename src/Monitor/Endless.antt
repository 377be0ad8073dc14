-- ===== src/Monitor/Endless.antt =====
-- What the monitor reports.
use jump.Base.{
  ℕ, ◌+◌, ◌%◌, ◌^◌, ◌<◌, ◌≡◌, ◌≢◌, refl, List, [], ◌∷◌, Option, none, some, arith, length, ◌==◌,
  if◌then◌else◌, ==_iff, subst, sym, ◌∙◌, ap,
}
use jump.Monitor.{Monitor, trigger, check}

-- The calls that a worker makes before and after its messages
pub triggers : Monitor → List (ℕ × ℕ) → Monitor
triggers sm [] = sm
triggers sm ((source, destination) ∷ more) = triggers (trigger sm source destination) more

version-triggers :
    (sm : Monitor) (more : List (ℕ × ℕ))
    → ((triggers sm more).version % 2 ^ 32 ≡ (sm.version + length more) % 2 ^ 32)
      × ((triggers sm more).check_version ≡ sm.check_version)
unfolding triggers trigger
version-triggers sm [] = (omega arith, refl)
version-triggers sm ((s, d) ∷ more) =
    let (a, b) = version-triggers (trigger sm s d) more in (omega (arith, a), b)

abbrev report : Monitor → Option ℕ
report sm = if sm.destination == 0 then none else some sm.destination

-- A check remembers the version and changes nothing else.
checked :
    (sm : Monitor)
    → ((check sm).1.check_version ≡ sm.version)
      × ((check sm).1.version ≡ sm.version)
      × ((check sm).1.destination ≡ sm.destination)
unfolding check
checked sm = ground arith

quiet : (sm : Monitor) → sm.version ≢ sm.check_version → (check sm).0 ≡ none
unfolding check
quiet sm ne = ground arith

reports : (sm : Monitor) → sm.version ≡ sm.check_version → (check sm).0 ≡ report sm
unfolding check
reports sm e = rw ((==_iff sm.version sm.check_version).1 e) refl

length_pos : (more : List (ℕ × ℕ)) → more ≢ [] → 0 < length more
length_pos [] ne = absurd (ne refl)
length_pos (x ∷ more) ne = omega arith

-- Let the worker make fewer than 2^32 calls of `skynet_monitor_trigger` between two checks. The second
-- check reports a service only if there was no call, and then the destination of the last call before,
-- unless that is 0.
pub check_lem :
    (sm : Monitor) (more : List (ℕ × ℕ))
    → sm.version < 2 ^ 32
    → length more < 2 ^ 32
    → let o = (check (triggers (check sm).1 more)).0 in
      (more ≢ [] → o ≡ none)
      × (more ≡ [] → o ≡ (if sm.destination == 0 then none else some sm.destination))
unfolding triggers
check_lem sm more v l = (
  λ some_call.
      let (a, b) = version-triggers (check sm).1 more in
      let (c, d, _) = checked sm in
      quiet (triggers (check sm).1 more)
        λ e. omega (arith, a, b, c, d, e, length_pos more some_call),
  λ no_call.
      subst (λ ts. (check (triggers (check sm).1 ts)).0 ≡ report sm) (sym no_call)
        (reports (check sm).1 (let (c, d, _) = checked sm in d ∙ sym c)
          ∙ ap (λ k. if k == 0 then none else some k) (checked sm).2),
)
