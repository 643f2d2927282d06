-- ===== src/ZkClient/Register.antt =====
-- The nodes that registerService makes: the first create of a path counts, and only where the path has
-- no node before. A create that the server accepts is a step from one state of it to the next.
use mathlib.Core.Path.{subst}
use netrpc.Base.{
  ℕ, ◌≡◌, ◌≢◌, ◌⊎◌, refl, ap, ◌∙◌, sym, inl, inr, Bytes, Bool, Result, ok, ◌>>=◌, some, List, [],
  ◌∷◌, Bool-cases, false, arith,
}
use netrpc.StdMap.{find, bytes_key, bytes_eq, bytes_eq_iff}
use netrpc.ZkClient.{ZooCode, zok, znonode, zerror, ZooKeeper, created, create}

module _ (zk : ZooKeeper) where
  open zk use {Zoo, zoo_exists, zoo_create, zoo_get, is_ephemeral}

  -- The node looks as it did.
  pub record Same (q : Bytes) (zoo zoo' : Zoo) : Type 0 where
    pub same_code : zoo_exists q zoo' ≡ zoo_exists q zoo
    pub same_data : zoo_get q zoo' ≡ zoo_get q zoo
    pub same_kind : is_ephemeral q zoo' ≡ is_ephemeral q zoo

  -- What ZooKeeper documents of a create that returns ZOK: the node is there, with its data and of its
  -- kind; and of any create: no other node changes. (Data of no bytes may come back otherwise.)
  pub record IsStore : Type 0 where
    pub made :
        (path bytes : Bytes) (e : Bool) (zoo : Zoo)
        → (zoo_create path bytes e zoo).0 ≡ zok
        → (zoo_exists path (zoo_create path bytes e zoo).1 ≡ zok)
          × (is_ephemeral path (zoo_create path bytes e zoo).1 ≡ e)
    pub holds :
        (path : Bytes) (c : ℕ) (cs : Bytes) (e : Bool) (zoo : Zoo)
        → (zoo_create path (c ∷ cs) e zoo).0 ≡ zok
        → zoo_get path (zoo_create path (c ∷ cs) e zoo).1 ≡ some (c ∷ cs)
    pub others :
        (path q bytes : Bytes) (e : Bool) (zoo : Zoo)
        → q ≢ path
        → Same q zoo (zoo_create path bytes e zoo).1

  abbrev pub Nodes : Type 0
  Nodes = List (Bytes × (Bytes × Bool))

  abbrev pub create_all : Nodes → Zoo → Result Zoo
  create_all [] zoo = ok zoo
  create_all ((path, (bytes, e)) ∷ nodes) zoo = create zk path bytes e zoo >>= create_all nodes

  -- The server behind a Create that returns.
  abbrev pub step : Bytes → Bytes → Bool → Zoo → Zoo
  step path bytes e zoo = elim (zoo_exists path zoo) [
    | znonode ↦ (zoo_create path bytes e zoo).1
    | _ ↦ zoo
  ]

  abbrev pub steps : Nodes → Zoo → Zoo
  steps [] zoo = zoo
  steps ((path, (bytes, e)) ∷ nodes) zoo = steps nodes (step path bytes e zoo)

  -- The server accepts the create, where the node is not there.
  abbrev pub Accepts : Bytes → Bytes → Bool → Zoo → Type 0
  Accepts path bytes e zoo = zoo_exists path zoo ≡ znonode → (zoo_create path bytes e zoo).0 ≡ zok

  abbrev pub Allowed : Nodes → Zoo → Type 0
  Allowed [] zoo = Unit {0}
  Allowed ((path, (bytes, e)) ∷ nodes) zoo =
      Accepts path bytes e zoo × Allowed nodes (step path bytes e zoo)

  -- A step makes the node, or changes nothing.
  pub step-cases :
      (path bytes : Bytes) (e : Bool) (zoo : Zoo)
      → ((zoo_exists path zoo ≡ znonode)
          × (step path bytes e zoo ≡ (zoo_create path bytes e zoo).1))
        ⊎ ((zoo_exists path zoo ≢ znonode) × (step path bytes e zoo ≡ zoo))
  step-cases path bytes e zoo = by_code (zoo_exists path zoo) refl
    where
      by_code :
          (code : ZooCode)
          → zoo_exists path zoo ≡ code
          → ((zoo_exists path zoo ≡ znonode)
              × (step path bytes e zoo ≡ (zoo_create path bytes e zoo).1))
            ⊎ ((zoo_exists path zoo ≢ znonode) × (step path bytes e zoo ≡ zoo))
      by_code znonode at = inl (at, rw (at, step) refl)
      by_code zok at = inr (λ no. cc, rw (at, step) refl)
      by_code zerror at = inr (λ no. cc, rw (at, step) refl)

  created_ok : (r : ZooCode × Zoo) → r.0 ≡ zok → created zk r ≡ ok r.1
  unfolding created
  created_ok (zok, zoo) h = refl
  created_ok (znonode, zoo) h = cc
  created_ok (zerror, zoo) h = cc

  create-step :
      (path bytes : Bytes) (e : Bool) (zoo : Zoo)
      → Accepts path bytes e zoo
      → create zk path bytes e zoo ≡ ok (step path bytes e zoo)
  unfolding create
  create-step path bytes e zoo accepts = by_code (zoo_exists path zoo) refl
    where
      by_code :
          (code : ZooCode)
          → zoo_exists path zoo ≡ code
          → create zk path bytes e zoo ≡ ok (step path bytes e zoo)
      by_code znonode at =
          rw (at, create, step) (created_ok (zoo_create path bytes e zoo) (accepts at))
      by_code zok at = rw (at, create, step) refl
      by_code zerror at = rw (at, create, step) refl

  pub create_all-steps :
      (nodes : Nodes) (zoo : Zoo) → Allowed nodes zoo → create_all nodes zoo ≡ ok (steps nodes zoo)
  create_all-steps [] zoo h = refl
  create_all-steps ((path, (bytes, e)) ∷ nodes) zoo (accepts, h) =
      ap (λ r. r >>= create_all nodes) (create-step path bytes e zoo accepts)
      ∙ create_all-steps nodes (step path bytes e zoo) h

module _ (zk : ZooKeeper) (store : IsStore zk) where
  open zk use {Zoo, zoo_exists, zoo_create, zoo_get, is_ephemeral}

  -- Any step keeps a node that is there, and any node but its own.
  pub step-Same :
      (q path bytes : Bytes) (e : Bool) (zoo : Zoo)
      → (zoo_exists q zoo ≡ zok) ⊎ (q ≢ path)
      → Same zk q zoo (step zk path bytes e zoo)
  step-Same q path bytes e zoo h = elim (step-cases zk path bytes e zoo) [
    | inr (_, same) ↦
        subst (Same zk q zoo) (sym same)
          (record { same_code = refl; same_data = refl; same_kind = refl })
    | inl (absent, made) ↦
        subst (Same zk q zoo) (sym made) (store.others path q bytes e zoo (differs absent h))
  ]
    where
      differs : zoo_exists path zoo ≡ znonode → (zoo_exists q zoo ≡ zok) ⊎ (q ≢ path) → q ≢ path
      differs absent (inl there) = λ same. cc
      differs absent (inr other) = other

  pub steps-present :
      (nodes : Nodes zk) (q : Bytes) (zoo : Zoo)
      → zoo_exists q zoo ≡ zok
      → zoo_get q (steps zk nodes zoo) ≡ zoo_get q zoo
  steps-present [] q zoo h = refl
  steps-present ((path, (bytes, e)) ∷ nodes) q zoo h =
      let kept = step-Same q path bytes e zoo (inl h) in
      steps-present nodes q (step zk path bytes e zoo) (kept.same_code ∙ h) ∙ kept.same_data

  -- An accepted step on a path that has no node.
  pub step-made :
      (path bytes : Bytes) (e : Bool) (zoo : Zoo)
      → zoo_exists path zoo ≡ znonode
      → Accepts zk path bytes e zoo
      → (zoo_exists path (step zk path bytes e zoo) ≡ zok)
        × (is_ephemeral path (step zk path bytes e zoo) ≡ e)
        × (step zk path bytes e zoo ≡ (zoo_create path bytes e zoo).1)
  step-made path bytes e zoo absent accepts = elim (step-cases zk path bytes e zoo) [
    | inl (_, made) ↦
        let (there, kind) = store.made path bytes e zoo (accepts absent) in
        (ap (zoo_exists path) made ∙ there, ap (is_ephemeral path) made ∙ kind, made)
    | inr (there, _) ↦ absurd (there absent)
  ]

  pub steps-found :
      (nodes : Nodes zk) (q : Bytes) (c : ℕ) (cs : Bytes) (e : Bool) (zoo : Zoo)
      → Allowed zk nodes zoo
      → find q nodes ≡ some ((c ∷ cs), e)
      → zoo_exists q zoo ≡ znonode
      → zoo_get q (steps zk nodes zoo) ≡ some (c ∷ cs)
  unfolding find
  steps-found [] q c cs e zoo allowed found h = absurd (ground arith)
  steps-found ((path, (bytes, e')) ∷ nodes) q c cs e zoo (accepts, allowed) found h =
      elim (Bool-cases (bytes_eq q path)) [
        | inl same ↦
            let at_path : q ≡ path = (bytes_eq_iff q path).0 same in
            let whole : bytes ≡ c ∷ cs = ground arith in first path bytes e' at_path whole accepts
        | inr other ↦
            let q_other : q ≢ path = λ same. cc ((bytes_eq_iff q path).1 same, other) in
            let kept = step-Same q path bytes e' zoo (inr q_other) in
            steps-found nodes q c cs e (step zk path bytes e' zoo) allowed (later other)
              (kept.same_code ∙ h)
      ]
    where
      later : bytes_eq q path ≡ false → find q nodes ≡ some ((c ∷ cs), e)
      later other = ground arith

      first :
          (r data_ : Bytes) (kind : Bool)
          → q ≡ r
          → data_ ≡ c ∷ cs
          → Accepts zk r data_ kind zoo
          → zoo_get q (steps zk nodes (step zk r data_ kind zoo)) ≡ some (c ∷ cs)
      first r data_ kind at_path whole accepts' =
          let absent : zoo_exists r zoo ≡ znonode = ap (λ x. zoo_exists x zoo) (sym at_path) ∙ h in
          let (there, _, made) = step-made r data_ kind zoo absent accepts' in
          let at_q : zoo_exists q (step zk r data_ kind zoo) ≡ zok =
            ap (λ x. zoo_exists x (step zk r data_ kind zoo)) at_path ∙ there in
          steps-present nodes q (step zk r data_ kind zoo) at_q
          ∙ ap (zoo_get q) made
          ∙ ap (λ x. zoo_get x (zoo_create r data_ kind zoo).1) at_path
          ∙ ap (λ x. zoo_get r (zoo_create r x kind zoo).1) whole
          ∙ store.holds r c cs kind zoo
              (ap (λ x. (zoo_create r x kind zoo).0) (sym whole) ∙ accepts' absent)
