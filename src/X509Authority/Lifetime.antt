-- ===== src/X509Authority/Lifetime.antt =====
-- The lifetime of an SVID lies within that of its authority.
use spiffecli.Prelude.{
  ◌≡◌, ◌↔◌, ◌⊎◌, inl, inr, refl, Result, ok, err, arith, Bool-cases, subst, if◌then◌else◌,
}
use spiffecli.Prelude.Int.{ℤ, pos, ◌+ℤ◌, ◌-ℤ◌, ◌≤ℤ◌, ◌<ℤ◌, ltb_ℤ, ltb_ℤ_iff, int_laws}
use spiffecli.X509Authority.{AuthorityError, expired, svid_backdate_period, determine_lifetime}

-- What a lifetime promises at the time `now`.
pub record IsLifetime (now ttl cap not_before not_after : ℤ) : Type 0 where
  pub backdated : not_before +ℤ svid_backdate_period ≡ now
  pub future : now <ℤ not_after
  pub capped : not_after ≤ℤ cap
  pub within_ttl : not_after ≤ℤ now +ℤ ttl
  pub longest : (not_after ≡ cap) ⊎ (not_after ≡ now +ℤ ttl)

-- The end that the code chooses.
abbrev end_of : ℤ → ℤ → ℤ → ℤ
end_of now ttl cap = if ltb_ℤ cap (now +ℤ ttl) then cap else now +ℤ ttl

end_of-IsLifetime :
    (now ttl cap : ℤ)
    → pos 0 <ℤ ttl
    → now <ℤ cap
    → IsLifetime now ttl cap (now -ℤ svid_backdate_period) (end_of now ttl cap)
end_of-IsLifetime now ttl cap h alive = elim (Bool-cases (ltb_ℤ cap (now +ℤ ttl))) [
  | inl late ↦
      let after = (ltb_ℤ_iff cap (now +ℤ ttl)).0 late in
      rw late (record {
        backdated = omega int_laws;
        future = alive;
        capped = omega arith;
        within_ttl = omega arith;
        longest = inl refl;
      })
  | inr early ↦
      let before : now +ℤ ttl ≤ℤ cap = ground arith in
      rw early (record {
        backdated = omega int_laws;
        future = omega int_laws;
        capped = before;
        within_ttl = omega arith;
        longest = inr refl;
      })
]

-- With a positive TTL `determineLifetime` fails exactly when the authority has expired; else the
-- lifetime begins ten seconds ago, ends after now, and ends at the TTL or at the authority's end,
-- whichever comes first.
pub determine_lifetime_correct :
    (now ttl cap : ℤ)
    → pos 0 <ℤ ttl
    → ((determine_lifetime now ttl cap ≡ err expired) ↔ (cap ≤ℤ now))
      × ((nb na : ℤ) → determine_lifetime now ttl cap ≡ ok (nb, na) → IsLifetime now ttl cap nb na)
unfolding determine_lifetime
determine_lifetime_correct now ttl cap h = elim (Bool-cases (ltb_ℤ now cap)) [
  | inl alive ↦
      let life = end_of-IsLifetime now ttl cap h ((ltb_ℤ_iff now cap).0 alive) in
      let start = now -ℤ svid_backdate_period in
      (
        (λ e. cc (rw alive at e), λ k. absurd (omega (arith, (ltb_ℤ_iff now cap).0 alive))),
        λ nb na e.
            let made : ◌≡◌ {A = Result AuthorityError (ℤ × ℤ)} (ok (start, end_of now ttl cap))
                (ok (nb, na)) =
              rw alive at e in
            let first : start ≡ nb = ground arith in
            let last : end_of now ttl cap ≡ na = cc in
            subst (λ x. IsLifetime now ttl cap x na) first
              (subst (λ x. IsLifetime now ttl cap start x) last life),
      )
  | inr dead ↦ ((λ _. ground arith, λ _. rw dead), λ nb na e. cc (rw dead at e))
]
