-- ===== src/X509Inspect/Chain/Render.antt =====
-- The text of a chain: one line for each certificate, whatever its subject holds; and the pools and
-- the errors of `shortestPath`.
use spiffecli.Prelude.{
  ℕ, zero, suc, ◌≡◌, ◌≢◌, ◌↔◌, refl, inl, inr, true, false, List, [], ◌∷◌, ok, err, arith, In, All,
  All-append, length, ◌=ₛ◌, codes, Bool-cases,
}
use spiffecli.Cert.{Cert, X509Lib}
use spiffecli.X509Inspect.Terminal.{
  sanitize_for_terminal, newlines, newlines-append, newlines-sanitize_for_terminal, IsPlain,
  sanitize_for_terminal-IsPlain,
}
use spiffecli.X509Inspect.Links.{cert_fingerprint, extract_spiffe_id, is_self_signed}
use spiffecli.X509Inspect.Chain.{
  no_root, indent, id_bracket, render_from, render_chain, root_pool, intermediate_pool,
  shortest_path, identify_leaf,
}

newlines-indent : (d : ℕ) → newlines (indent d) ≡ 0
newlines-indent zero = refl
newlines-indent (suc d) = newlines-indent d

indent-IsPlain : (d : ℕ) → All IsPlain (indent d)
indent-IsPlain zero = tt
indent-IsPlain (suc d) = (ground arith, (ground arith, indent-IsPlain d))

module _ (lib : X509Lib) where
  newlines-id_bracket : (c : Cert) → newlines (id_bracket lib c) ≡ 0
  unfolding id_bracket
  newlines-id_bracket c =
      let s = sanitize_for_terminal (codes (extract_spiffe_id lib c)) in
      ground (
        arith,
        newlines-append s (codes "]"),
        newlines-sanitize_for_terminal (codes (extract_spiffe_id lib c)),
      )

  id_bracket-IsPlain : (c : Cert) → All IsPlain (id_bracket lib c)
  unfolding id_bracket
  id_bracket-IsPlain c = elim (Bool-cases (extract_spiffe_id lib c =ₛ "")) [
    | inl e ↦ rw (e, id_bracket) tt
    | inr e ↦
        rw (e, id_bracket)
          (
            ground arith,
            (
              ground arith,
              (
                ground arith,
                All-append IsPlain (sanitize_for_terminal (codes (extract_spiffe_id lib c)))
                    (codes "]") (sanitize_for_terminal-IsPlain (codes (extract_spiffe_id lib c)))
                    (ground arith, tt),
              ),
            ),
          )
  ]

  newlines-render_from :
      (d : ℕ) (chain : List Cert) → newlines (render_from lib d chain) ≡ length chain
  unfolding render_from
  newlines-render_from d [] = refl
  newlines-render_from d (c ∷ []) =
      simp (newlines-append, newlines-indent, newlines-sanitize_for_terminal, newlines-id_bracket)
        (omega arith)
  newlines-render_from d (c ∷ next ∷ cs) =
      simp (newlines-append, newlines-indent, newlines-sanitize_for_terminal)
        (omega (arith, newlines-render_from (suc d) (next ∷ cs)))

  render_from-IsPlain : (d : ℕ) (chain : List Cert) → All IsPlain (render_from lib d chain)
  unfolding render_from
  render_from-IsPlain d [] = tt
  render_from-IsPlain d (c ∷ []) = All-append IsPlain (indent d) _ (indent-IsPlain d) (
      All-append IsPlain (sanitize_for_terminal c.subject) _
        (sanitize_for_terminal-IsPlain c.subject)
        (All-append IsPlain (id_bracket lib c) (10 ∷ []) (id_bracket-IsPlain c) (inr refl, tt)))
  render_from-IsPlain d (c ∷ next ∷ cs) = All-append IsPlain (indent d) _ (indent-IsPlain d) (
      All-append IsPlain (sanitize_for_terminal c.subject) _
        (sanitize_for_terminal-IsPlain c.subject)
        (inr refl, render_from-IsPlain (suc d) (next ∷ cs)))

  -- The text of a chain has as many line ends as the chain has certificates, and but for these no
  -- control character: no subject or SPIFFE ID can add a line or drive the terminal.
  pub render_chain-lines :
      (chain : List Cert)
      → (newlines (render_chain lib chain) ≡ length chain) × All IsPlain (render_chain lib chain)
  unfolding render_chain
  render_chain-lines chain = (newlines-render_from 0 chain, render_from-IsPlain 0 chain)

  In-root_pool :
      (all : List Cert) (c : Cert)
      → In c (root_pool lib all) ↔ (In c all × (is_self_signed lib c ≡ true))
  unfolding root_pool
  In-root_pool [] c = (λ h. absurd h, λ h. absurd h.0)
  In-root_pool (x ∷ xs) c = ground (arith, In-root_pool xs c)

  In-intermediate_pool :
      (fp : ℕ) (all : List Cert) (c : Cert)
      → In c (intermediate_pool lib fp all)
        ↔ (In c all × (is_self_signed lib c ≡ false) × (cert_fingerprint lib c ≢ fp))
  unfolding intermediate_pool
  In-intermediate_pool fp [] c = (λ h. absurd h, λ h. absurd h.0)
  In-intermediate_pool fp (x ∷ xs) c = ground (arith, In-intermediate_pool fp xs c)

  -- The pools of `shortestPath`: the roots are the self-signed certificates, the leaf among them if
  -- it is one, and the intermediates are all others but the leaf.
  pub pools_split :
      (leaf c : Cert) (all : List Cert)
      → (In c (root_pool lib all) ↔ (In c all × (is_self_signed lib c ≡ true)))
        × (In c (intermediate_pool lib (cert_fingerprint lib leaf) all) ↔ (
            In c all
            × (is_self_signed lib c ≡ false)
            × (cert_fingerprint lib c ≢ cert_fingerprint lib leaf)))
  pools_split leaf c all =
      (In-root_pool all c, In-intermediate_pool (cert_fingerprint lib leaf) all c)

  root_pool-nil :
      (all : List Cert) → (root_pool lib all ≡ []) ↔ All (λ c. is_self_signed lib c ≡ false) all
  unfolding root_pool
  root_pool-nil [] = (λ _. tt, λ _. refl)
  root_pool-nil (x ∷ xs) = ground (arith, root_pool-nil xs)

  -- With a leaf, `shortestPath` asks for a root exactly when no certificate is self-signed.
  pub shortest_path-no_root :
      (all : List Cert) (leaf : Cert)
      → identify_leaf lib all ≡ ok leaf
      → ((shortest_path lib all).1 ≡ err no_root) ↔ All (λ c. is_self_signed lib c ≡ false) all
  unfolding shortest_path
  shortest_path-no_root all leaf found = ground (arith, root_pool-nil all)
