-- ===== src/X509Inspect/Tree/Visit.antt =====
-- The traversal of the tree: it ends, prints each certificate once, balances the indentation, and
-- reaches whatever the children map reaches from the root.
use mathlib.Core.List.{append_assoc, append-nil}
use spiffecli.Prelude.{
  ℕ, zero, suc, ◌+◌, ◌≤◌, ◌<◌, ◌≡◌, inl, inr, refl, sym, ◌∙◌, ap, true, false, Option, none, some,
  List, [], ◌∷◌, ◌++◌, arith, In, All, length, mem, Nodup, ◌==◌, ==_iff, Bool-cases, subst, String,
}
use spiffecli.Cert.{Cert, X509Lib, Format}
use spiffecli.X509Inspect.Links.{cert_fingerprint}
use spiffecli.X509Inspect.Chain.Walk.{unvisited, unvisited-cons, unvisited-nil}
use spiffecli.X509Inspect.Tree.{
  Op, append_item, indent, un_indent, TreeState, get_children, write_children, write_tree_node,
  node_label, cycle_at,
}

-- The depth after some operations, or none where an `UnIndent` has no `Indent`.
abbrev pub level : ℕ → List Op → Option ℕ
level n [] = some n
level n (append_item l ∷ ops) = level n ops
level n (indent ∷ ops) = level (suc n) ops
level zero (un_indent ∷ ops) = none
level (suc n) (un_indent ∷ ops) = level n ops

abbrev pub items : List Op → ℕ
items [] = 0
items (append_item l ∷ ops) = suc (items ops)
items (indent ∷ ops) = items ops
items (un_indent ∷ ops) = items ops

level-append : (n m : ℕ) (a b : List Op) → level n a ≡ some m → level n (a ++ b) ≡ level m b
level-append n m [] b h = ground arith
level-append n m (append_item l ∷ a) b h = level-append n m a b h
level-append n m (indent ∷ a) b h = level-append (suc n) m a b h
level-append zero m (un_indent ∷ a) b h = cc
level-append (suc n) m (un_indent ∷ a) b h = level-append n m a b h

items-append : (a b : List Op) → items (a ++ b) ≡ items a + items b
items-append [] b = omega arith
items-append (append_item l ∷ a) b = omega (arith, items-append a b)
items-append (indent ∷ a) b = items-append a b
items-append (un_indent ∷ a) b = items-append a b

module _ (lib : X509Lib) (all : List Cert) (children : List (ℕ × List Cert)) where
  -- What a visit does to the state of one tree.
  pub record Grows (s t : TreeState) : Type 0 where
    pub new : List Op
    pub extends : t.ops ≡ s.ops ++ new
    pub balanced : (n : ℕ) → level n new ≡ some n
    pub counted : items new + length s.visited ≡ length t.visited
    pub once : Nodup s.visited → Nodup t.visited
    pub kept : (f : ℕ) → mem f s.visited ≡ true → mem f t.visited ≡ true
    pub fewer : items new + unvisited lib t.visited all ≤ unvisited lib s.visited all
    pub closed :
        (f : ℕ)
        → mem f t.visited ≡ true
        → mem f s.visited ≡ false
        → All (λ d. mem (cert_fingerprint lib d) t.visited ≡ true) (get_children f children)

  All-kept :
      (s t : TreeState) (cs : List Cert)
      → Grows s t
      → All (λ d. mem (cert_fingerprint lib d) s.visited ≡ true) cs
      → All (λ d. mem (cert_fingerprint lib d) t.visited ≡ true) cs
  All-kept s t [] g h = tt
  All-kept s t (c ∷ cs) g (e, h) = (g.kept (cert_fingerprint lib c) e, All-kept s t cs g h)

  Grows-same : (s t : TreeState) → t.visited ≡ s.visited → t.ops ≡ s.ops → Grows s t
  Grows-same s t v o = record {
    new = [];
    extends = o ∙ sym (append-nil s.ops);
    balanced = λ n. refl;
    counted = omega (arith, ap length v);
    once = λ h. subst (λ x. Nodup x) (sym v) h;
    kept = λ f h. subst (λ x. mem f x ≡ true) (sym v) h;
    fewer = omega (arith, ap (λ x. unvisited lib x all) v);
    closed = λ f h k. cc (ap (mem f) v, h, k);
  }

  Grows-trans : (s t u : TreeState) → Grows s t → Grows t u → Grows s u
  Grows-trans s t u g h = record {
    new = g.new ++ h.new;
    extends = h.extends ∙ ap (λ o. o ++ h.new) g.extends ∙ append_assoc s.ops g.new h.new;
    balanced = λ n. level-append n n g.new h.new (g.balanced n) ∙ h.balanced n;
    counted = omega (arith, items-append g.new h.new, g.counted, h.counted);
    once = λ n. h.once (g.once n);
    kept = λ f m. h.kept f (g.kept f m);
    fewer = omega (arith, items-append g.new h.new, g.fewer, h.fewer);
    closed = λ f m k. elim (Bool-cases (mem f t.visited)) [
      | inl early ↦ All-kept t u (get_children f children) h (g.closed f early k)
      | inr late ↦ h.closed f m late
    ];
  }

  -- A successful visit, with the visited certificate marked.
  abbrev pub Visits : (Cert → TreeState → Option TreeState) → Cert → TreeState → Type 0
  Visits visit c s =
      (t : TreeState) × (visit c s ≡ some t)
      × Grows s t
      × (mem (cert_fingerprint lib c) t.visited ≡ true)

  write_children_returns :
      (fmt : Format) (visit : Cert → TreeState → Option TreeState) (fuel : ℕ)
      → ((c : Cert) (s : TreeState)
          → In c all
          → unvisited lib s.visited all < fuel
          → Visits visit c s)
      → (cs : List Cert) (s : TreeState) → All (λ c. In c all) cs
      → unvisited lib s.visited all < fuel
      → (t : TreeState) × (write_children lib fmt visit cs s ≡ some t)
        × Grows s t
        × All (λ c. mem (cert_fingerprint lib c) t.visited ≡ true) cs
  unfolding write_children
  write_children_returns fmt visit fuel ih [] s h lt = (s, refl, Grows-same s s refl refl, tt)
  write_children_returns fmt visit fuel ih (c ∷ cs) s (listed, h) lt =
      let (t, e, g, marked) = ih c s listed lt in
      let (u, e', g', rest) =
        write_children_returns fmt visit fuel ih cs t h (omega (arith, g.fewer)) in
      (
        u,
        rw (e, write_children) e',
        Grows-trans s t u g g',
        (g'.kept (cert_fingerprint lib c) marked, rest),
      )

  module _ (fmt : Format) (fields : List String)
      (listed : (f : ℕ) → All (λ c. In c all) (get_children f children)) where
    -- The state in which the children of `c` are visited.
    abbrev entered : Cert → TreeState → TreeState
    entered c s = record {
      visited = cert_fingerprint lib c ∷ s.visited;
      ops = s.ops ++ append_item (node_label lib fmt c fields) ∷ indent ∷ [];
      notes = s.notes;
    }

    Grows-node :
        (c : Cert) (s t : TreeState)
        → In c all
        → mem (cert_fingerprint lib c) s.visited ≡ false
        → Grows (entered c s) t
        → All
            (λ d. mem (cert_fingerprint lib d) t.visited ≡ true)
            (get_children (cert_fingerprint lib c) children)
        → Grows s (record t { ops = t.ops ++ un_indent ∷ [] })
    Grows-node c s t here fresh g below = record {
      new = append_item (node_label lib fmt c fields) ∷ indent ∷ (g.new ++ un_indent ∷ []);
      extends = rw g.extends (simp append_assoc);
      balanced = λ n. level-append (suc n) (suc n) g.new (un_indent ∷ []) (g.balanced (suc n));
      counted = omega (arith, items-append g.new (un_indent ∷ []), g.counted);
      once = λ h. g.once (fresh, h);
      kept = λ f h. g.kept f (ground (arith, h));
      fewer = omega (
        arith,
        items-append g.new (un_indent ∷ []),
        g.fewer,
        unvisited-cons lib c s.visited all here fresh,
      );
      closed = λ f m k. elim (Bool-cases (f == cert_fingerprint lib c)) [
        | inl same ↦
            subst
              (λ x.
                All (λ d. mem (cert_fingerprint lib d) t.visited ≡ true) (get_children x children))
              (sym ((==_iff f (cert_fingerprint lib c)).0 same)) below
        | inr other ↦ g.closed f m (rw other k)
      ];
    }

    -- The first visit of a certificate begins with its label.
    abbrev pub Enters : ℕ → Cert → TreeState → Type 0
    Enters fuel c s =
        (t : TreeState) × (write_tree_node lib fmt fuel children fields c s ≡ some t)
        × Grows s t
        × (mem (cert_fingerprint lib c) t.visited ≡ true)
        × (rest : List Op) × (t.ops ≡ s.ops ++ append_item (node_label lib fmt c fields) ∷ rest)

    write_tree_node-Enters :
        (fuel : ℕ)
        → ((c : Cert) (s : TreeState)
            → In c all
            → unvisited lib s.visited all < fuel
            → Visits (write_tree_node lib fmt fuel children fields) c s)
        → (c : Cert) (s : TreeState) → In c all
        → unvisited lib s.visited all < suc fuel
        → mem (cert_fingerprint lib c) s.visited ≡ false
        → Enters (suc fuel) c s
    unfolding write_tree_node
    write_tree_node-Enters fuel ih c s h lt new =
        let (t, e, g, below) =
          write_children_returns fmt (write_tree_node lib fmt fuel children fields) fuel ih
            (get_children (cert_fingerprint lib c) children) (entered c s)
            (listed (cert_fingerprint lib c))
            (omega (arith, unvisited-cons lib c s.visited all h new)) in
        (
          record t { ops = t.ops ++ un_indent ∷ [] },
          rw (new, e),
          Grows-node c s t h new g below,
          g.kept (cert_fingerprint lib c)
              (ground (arith, ==_iff (cert_fingerprint lib c) (cert_fingerprint lib c))),
          indent ∷ (g.new ++ un_indent ∷ []),
          rw g.extends (simp append_assoc),
        )

    -- With more fuel than unvisited certificates a visit returns.
    pub write_tree_node_returns :
        (fuel : ℕ) (c : Cert) (s : TreeState)
        → In c all
        → unvisited lib s.visited all < fuel
        → Visits (write_tree_node lib fmt fuel children fields) c s
    unfolding write_tree_node
    write_tree_node_returns zero c s h lt = absurd (omega arith)
    write_tree_node_returns (suc fuel) c s h lt =
        elim (Bool-cases (mem (cert_fingerprint lib c) s.visited)) [
          | inl old ↦
              let t = record s {
                notes = s.notes ++ cycle_at c.serial (cert_fingerprint lib c) ∷ [];
              } in
              (t, rw old, Grows-same s t refl refl, old)
          | inr new ↦
              let (t, e, g, marked, _, _) =
                write_tree_node-Enters fuel (write_tree_node_returns fuel) c s h lt new in
              (t, e, g, marked)
        ]

    pub write_tree_node_first :
        (c : Cert) (s : TreeState) → In c all → s.visited ≡ [] → Enters (suc (length all)) c s
    write_tree_node_first c s h none_visited =
        let fresh : unvisited lib s.visited all ≡ length all =
          rw none_visited (unvisited-nil lib all) in
        write_tree_node-Enters (length all) (write_tree_node_returns (length all)) c s h
          (omega (arith, fresh)) (rw none_visited refl)
