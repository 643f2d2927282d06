-- ===== src/ZkClient/Allowed.antt =====
-- Why a server accepts the creates of registerService: the node of a service comes before those of its
-- methods, and stays.
use mathlib.Core.List.{append_assoc, head-eq_of_cons-eq, tail-eq_of_cons-eq}
use netrpc.Base.{
  ℕ, ◌≡◌, ◌≢◌, ◌⊎◌, refl, ap, ◌∙◌, sym, inl, inr, Bytes, codes, Bool, true, false, ◌&&◌, ◌||◌, ◌==◌,
  leb, List, [], ◌∷◌, ◌++◌, All, Bool-cases, arith,
}
use netrpc.StdMap.{bytes_eq, bytes_eq_iff}
use netrpc.Rpc.Dispatcher.{Protobuf, ServiceMap}
use netrpc.ZkClient.{ZooCode, zok, znonode, zerror, ZooKeeper, service_path, method_path}
use netrpc.ZkClient.Register.{
  IsStore, Nodes, step, Accepts, Allowed, step-cases, step-Same, step-made,
}

abbrev slash : ℕ
slash = b'/'

-- The letters, digits and the underscore, of which protobuf makes the names of services and methods.
abbrev pub is_name_char : ℕ → Bool
is_name_char c =
    (leb b'a' c && leb c b'z')
    || (leb b'A' c && leb c b'Z')
    || (leb b'0' c && leb c b'9')
    || (c == b'_')

abbrev pub IsName : Bytes → Type 0
IsName name = (name ≢ []) × All (λ c. is_name_char c ≡ true) name

-- What ZooKeeper documents of a server that answers: it accepts the create of a node that is not
-- there at a path of one name, and at one of two names where the node of the first is there and is
-- not ephemeral.
pub record IsServer (zk : ZooKeeper) : Type 0 where
  pub store : IsStore zk
  pub answers : (path : Bytes) (zoo : zk.Zoo) → zk.zoo_exists path zoo ≢ zerror
  pub accepts_top :
      (name bytes : Bytes) (e : Bool) (zoo : zk.Zoo)
      → IsName name
      → Accepts zk (service_path name) bytes e zoo
  pub accepts_child :
      (name method bytes : Bytes) (e : Bool) (zoo : zk.Zoo)
      → IsName name
      → IsName method
      → zk.zoo_exists (service_path name) zoo ≡ zok
      → zk.is_ephemeral (service_path name) zoo ≡ false
      → Accepts zk (method_path name method) bytes e zoo

-- The nodes in the order of their creates.
abbrev pub method_nodes : Bytes → Bytes → List Bytes → List (Bytes × (Bytes × Bool))
method_nodes text name [] = []
method_nodes text name (method ∷ rest) =
    (method_path name method, (text, true)) ∷ method_nodes text name rest

abbrev pub nodes_of :
    (p : Protobuf) → (p.Service → List Bytes) → Bytes → ServiceMap p → List (Bytes × (Bytes × Bool))
nodes_of p methods text [] = []
nodes_of p methods text ((name, s) ∷ services) =
    (service_path name, ([], false))
    ∷ (method_nodes text name (methods s) ++ nodes_of p methods text services)

-- A name has no slash, so the path of a method is not that of a service.
no_slash : (name xs ys : Bytes) → All (λ c. is_name_char c ≡ true) name → name ≢ xs ++ (slash ∷ ys)
no_slash [] [] ys h e = absurd (cc e)
no_slash [] (x ∷ xs) ys h e = absurd (cc e)
no_slash (c ∷ cs) [] ys h e = ground (arith, head-eq_of_cons-eq e)
no_slash (c ∷ cs) (x ∷ xs) ys h e = no_slash cs xs ys h.1 (tail-eq_of_cons-eq e)

service-method_path : (q name method : Bytes) → IsName q → service_path q ≢ method_path name method
service-method_path q name method h e =
    no_slash q name method h.1 (tail-eq_of_cons-eq e ∙ append_assoc name (codes "/") method)

-- Where the node is there it is not ephemeral.
abbrev pub IsLasting : (zk : ZooKeeper) → Bytes → zk.Zoo → Type 0
IsLasting zk q zoo = zk.zoo_exists q zoo ≡ zok → zk.is_ephemeral q zoo ≡ false

module _ (p : Protobuf) where
  abbrev pub Named : (p.Service → List Bytes) → ServiceMap p → Type 0
  Named methods = All (λ s. IsName s.0 × All IsName (methods s.1))

  -- None of the services has an ephemeral node.
  abbrev pub AllLasting : (zk : ZooKeeper) → ServiceMap p → zk.Zoo → Type 0
  AllLasting zk services zoo = All (λ s. IsLasting zk (service_path s.0) zoo) services

module _ (zk : ZooKeeper) (server : IsServer zk) where
  open zk use {Zoo, zoo_exists, zoo_create, is_ephemeral}

  step-IsLasting :
      (q path bytes : Bytes) (e : Bool) (zoo : Zoo)
      → (e ≡ false) ⊎ (q ≢ path)
      → Accepts zk path bytes e zoo
      → IsLasting zk q zoo
      → IsLasting zk q (step zk path bytes e zoo)
  step-IsLasting q path bytes e zoo kind accepts h there = elim (step-cases zk path bytes e zoo) [
    | inr (_, same) ↦ ap (is_ephemeral q) same ∙ h (ap (zoo_exists q) (sym same) ∙ there)
    | inl (absent, _) ↦ elim (Bool-cases (bytes_eq q path)) [
      | inl at ↦
          let at_path : q ≡ path = (bytes_eq_iff q path).0 at in
          ap (λ x. is_ephemeral x (step zk path bytes e zoo)) at_path
          ∙ (step-made zk server.store path bytes e zoo absent accepts).1
          ∙ lasting at_path kind
      | inr other ↦
          let q_other : q ≢ path = λ same. cc ((bytes_eq_iff q path).1 same, other) in
          let kept = step-Same zk server.store q path bytes e zoo (inr q_other) in
          kept.same_kind ∙ h (sym kept.same_code ∙ there)
    ]
  ]
    where
      lasting : q ≡ path → (e ≡ false) ⊎ (q ≢ path) → e ≡ false
      lasting at_path (inl same) = same
      lasting at_path (inr other) = absurd (other at_path)

  -- A service's node is there behind its create.
  step-service :
      (name : Bytes) (zoo : Zoo)
      → IsName name
      → zoo_exists (service_path name) (step zk (service_path name) [] false zoo) ≡ zok
  step-service name zoo named = by_code (zoo_exists (service_path name) zoo) refl
    where
      path : Bytes
      path = service_path name

      by_code :
          (code : ZooCode)
          → zoo_exists path zoo ≡ code
          → zoo_exists path (step zk path [] false zoo) ≡ zok
      by_code zok at = (step-Same zk server.store path path [] false zoo (inl at)).same_code ∙ at
      by_code znonode at =
          (step-made zk server.store path [] false zoo at
            (server.accepts_top name [] false zoo named)).0
      by_code zerror at = absurd (server.answers path zoo at)

  module _ (p : Protobuf) (methods : p.Service → List Bytes) (text : Bytes) where
    step-AllLasting :
        (services : ServiceMap p) (path bytes : Bytes) (e : Bool) (zoo : Zoo)
        → Named p methods services
        → (e ≡ false) ⊎ ((q : Bytes) → IsName q → service_path q ≢ path)
        → Accepts zk path bytes e zoo
        → AllLasting p zk services zoo
        → AllLasting p zk services (step zk path bytes e zoo)
    step-AllLasting [] path bytes e zoo named kind accepts h = tt
    step-AllLasting ((q, s) ∷ services) path bytes e zoo (n, named) kind accepts (l, h) = (
      step-IsLasting (service_path q) path bytes e zoo (at_q kind) accepts l,
      step-AllLasting services path bytes e zoo named kind accepts h,
    )
      where
        at_q :
            (e ≡ false) ⊎ ((r : Bytes) → IsName r → service_path r ≢ path)
            → (e ≡ false) ⊎ (service_path q ≢ path)
        at_q (inl same) = inl same
        at_q (inr other) = inr (other q n.0)

    methods-Allowed :
        (services : ServiceMap p) (name : Bytes) (names : List Bytes) (rest : Nodes zk) (zoo : Zoo)
        → Named p methods services
        → IsName name
        → All IsName names
        → zoo_exists (service_path name) zoo ≡ zok
        → IsLasting zk (service_path name) zoo
        → AllLasting p zk services zoo
        → ((zoo' : Zoo) → AllLasting p zk services zoo' → Allowed zk rest zoo')
        → Allowed zk (method_nodes text name names ++ rest) zoo
    methods-Allowed services name [] rest zoo named n ns there lasting h next = next zoo h
    methods-Allowed services name (method ∷ names) rest zoo named n (m, ns) there lasting h next =
        let path : Bytes = method_path name method in
        let accepts : Accepts zk path text true zoo =
          server.accepts_child name method text true zoo n m there (lasting there) in
        let other : (q : Bytes) → IsName q → service_path q ≢ path =
          λ q named_q. service-method_path q name method named_q in
        let kept = step-Same zk server.store (service_path name) path text true zoo (inl there) in
        (
          accepts,
          methods-Allowed services name names rest (step zk path text true zoo) named n ns
              (kept.same_code ∙ there)
              (step-IsLasting (service_path name) path text true zoo (inr (other name n)) accepts
                lasting)
              (step-AllLasting services path text true zoo named (inr other) accepts h) next,
        )

    pub nodes-Allowed :
        (services : ServiceMap p) (zoo : Zoo)
        → Named p methods services
        → AllLasting p zk services zoo
        → Allowed zk (nodes_of p methods text services) zoo
    nodes-Allowed [] zoo named h = tt
    nodes-Allowed ((name, s) ∷ services) zoo (n, named) (lasting, h) =
        let path : Bytes = service_path name in
        let accepts = server.accepts_top name [] false zoo n.0 in
        (
          accepts,
          methods-Allowed services name (methods s) (nodes_of p methods text services)
              (step zk path [] false zoo) named n.0 n.1 (step-service name zoo n.0)
              (step-IsLasting path path [] false zoo (inl refl) accepts lasting)
              (step-AllLasting services path [] false zoo named (inl refl) accepts h)
              (λ zoo' h'. nodes-Allowed services zoo' named h'),
        )
