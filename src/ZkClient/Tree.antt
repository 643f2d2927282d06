-- ===== src/ZkClient/Tree.antt =====
-- A ZooKeeper that is a tree, as a map from paths to the data and the kind of their nodes.
use mathlib.Core.List.{append_assoc}
use netrpc.Base.{
  ◌∙◌, ◌≡◌, ◌≢◌, refl, ap, inl, inr, Bool, true, false, not, ◌==◌, ◌++◌, All, Bool-cases, Bytes,
  codes, Option, none, some, [], ◌∷◌, if◌then◌else◌, arith,
}
use netrpc.StdMap.{bytes_eq, bytes_eq_iff, bytes_key}
use netrpc.ZkClient.{ZooCode, zok, znonode, zerror, ZooKeeper, service_path, method_path}
use netrpc.ZkClient.Register.{IsStore, Accepts}
use netrpc.ZkClient.Allowed.{is_name_char, IsName, IsServer}

abbrev pub code_of : Option (Bytes × Bool) → ZooCode
code_of none = znonode
code_of (some _) = zok

abbrev pub Tree : Type 0
Tree = Bytes → Option (Bytes × Bool)

abbrev pub put : Bytes → Bytes → Bool → Tree → Tree
put path bytes e zoo q = if bytes_eq q path then some (bytes, e) else zoo q

-- What stands in front of the last slash of a path.
parent : Bytes → Option Bytes
parent [] = none
parent (c ∷ cs) = elim (parent cs) [
  | some front ↦ some (c ∷ front)
  | none ↦ if c == b'/' then some [] else none
]

abbrev pub is_lasting : Option (Bytes × Bool) → Bool
is_lasting none = false
is_lasting (some (_, e)) = not e

-- A new node wants a parent that is the root, or that is there and not ephemeral.
has_place : Bytes → Tree → Bool
has_place path zoo = elim (parent path) [
  | none ↦ false
  | some [] ↦ true
  | some (c ∷ front) ↦ is_lasting (zoo (c ∷ front))
]

pub create_node : Bytes → Bytes → Bool → Tree → ZooCode × Tree
create_node path bytes e zoo = elim (has_place path zoo) [
  | true ↦ (zok, put path bytes e zoo)
  | false ↦ (znonode, zoo)
]

abbrev pub data_of : Option (Bytes × Bool) → Option Bytes
data_of none = none
data_of (some (bytes, _)) = some bytes

abbrev pub kind_of : Option (Bytes × Bool) → Bool
kind_of none = false
kind_of (some (_, e)) = e

abbrev pub tree : ZooKeeper
tree = record {
  Zoo = Tree;
  zoo_exists = λ path zoo. code_of (zoo path);
  zoo_create = create_node;
  zoo_get = λ path zoo. data_of (zoo path);
  is_ephemeral = λ path zoo. kind_of (zoo path);
}

pub put_self :
    (path bytes : Bytes) (e : Bool) (zoo : Tree) → put path bytes e zoo path ≡ some (bytes, e)
put_self path bytes e zoo = ground (arith, bytes_eq_iff path path)

put_other :
    (path q bytes : Bytes) (e : Bool) (zoo : Tree) → q ≢ path → put path bytes e zoo q ≡ zoo q
put_other path q bytes e zoo h = ground (arith, bytes_eq_iff q path)

create_node-made :
    (path bytes : Bytes) (e : Bool) (zoo : Tree)
    → (create_node path bytes e zoo).0 ≡ zok
    → (create_node path bytes e zoo).1 path ≡ some (bytes, e)
unfolding create_node
create_node-made path bytes e zoo h = elim (Bool-cases (has_place path zoo)) [
  | inl fits ↦ rw (fits, create_node) (put_self path bytes e zoo)
  | inr lost ↦ absurd (ground arith)
]

create_node-other :
    (path q bytes : Bytes) (e : Bool) (zoo : Tree)
    → q ≢ path
    → (create_node path bytes e zoo).1 q ≡ zoo q
unfolding create_node
create_node-other path q bytes e zoo h = elim (Bool-cases (has_place path zoo)) [
  | inl fits ↦ rw (fits, create_node) (put_other path q bytes e zoo h)
  | inr lost ↦ rw (lost, create_node) refl
]

parent-name : (name : Bytes) → All (λ c. is_name_char c ≡ true) name → parent name ≡ none
unfolding parent
parent-name [] h = refl
parent-name (c ∷ cs) h = ground (arith, parent-name cs h.1)

parent-append :
    (front name : Bytes)
    → All (λ c. is_name_char c ≡ true) name
    → parent (front ++ (b'/' ∷ name)) ≡ some front
unfolding parent
parent-append [] name h = rw (parent-name name h) refl
parent-append (c ∷ cs) name h = rw (parent-append cs name h) refl

tree-IsStore : IsStore tree
tree-IsStore = record {
  made = λ path bytes e zoo h. (
    ap code_of (create_node-made path bytes e zoo h),
    ap kind_of (create_node-made path bytes e zoo h),
  );
  holds = λ path c cs e zoo h. ap data_of (create_node-made path (c ∷ cs) e zoo h);
  others = λ path q bytes e zoo h. record {
    same_code = ap code_of (create_node-other path q bytes e zoo h);
    same_data = ap data_of (create_node-other path q bytes e zoo h);
    same_kind = ap kind_of (create_node-other path q bytes e zoo h);
  };
}

tree-Accepts_top :
    (name bytes : Bytes) (e : Bool) (zoo : Tree)
    → IsName name
    → Accepts tree (service_path name) bytes e zoo
unfolding create_node has_place
tree-Accepts_top name bytes e zoo n absent =
    let front : parent (b'/' ∷ name) ≡ some [] = parent-append [] name n.1 in
    let fits : has_place (b'/' ∷ name) zoo ≡ true = rw (front, has_place) refl in
    rw (fits, create_node) refl

lasting_of : (o : Option (Bytes × Bool)) → code_of o ≡ zok → kind_of o ≡ false → is_lasting o ≡ true
lasting_of none there kind = absurd (cc there)
lasting_of (some (bytes, e)) there kind = ap not kind

answered : (o : Option (Bytes × Bool)) → code_of o ≢ zerror
answered none = λ same. cc
answered (some node) = λ same. cc

tree-Accepts_child :
    (name method bytes : Bytes) (e : Bool) (zoo : Tree)
    → IsName name
    → IsName method
    → code_of (zoo (service_path name)) ≡ zok
    → kind_of (zoo (service_path name)) ≡ false
    → Accepts tree (method_path name method) bytes e zoo
unfolding create_node has_place
tree-Accepts_child name method bytes e zoo n m there lasting absent =
    let front : parent (method_path name method) ≡ some (service_path name) =
      ap parent (append_assoc (service_path name) (codes "/") method)
      ∙ parent-append (service_path name) method m.1 in
    let fits : has_place (method_path name method) zoo ≡ true =
      rw (front, has_place) (lasting_of (zoo (service_path name)) there lasting) in
    rw (fits, create_node) refl

pub tree-IsServer : IsServer tree
tree-IsServer = record {
  store = tree-IsStore;
  answers = λ path zoo. answered (zoo path);
  accepts_top = tree-Accepts_top;
  accepts_child = tree-Accepts_child;
}
