-- ===== src/Rpc/Channel/FindAddr.antt =====
-- FindAddr on the stubs that Config::Init has read: which stub a name stands for.
use netrpc.Base.{
  ◌≡◌, refl, ap, ◌∙◌, inl, inr, Bytes, false, ok, Returns, Option, none, some, List, [], ◌∷◌, codes,
  if◌then◌else◌, Option-cases, arith,
}
use netrpc.StdMap.{find, insert, bytes_eq, bytes_eq_iff, bytes_key}
use netrpc.StdMap.Laws.{find-insert, insert-present}
use netrpc.Config.{Xml, RpcStub, first_child, read_stub, read_stubs, read_all_stubs}
use netrpc.NetAddr.{is_valid_text}
use netrpc.Rpc.Channel.{find_addr, map_addr}

-- The first stub of the name.
abbrev pub first_named : Bytes → List RpcStub → Option RpcStub
first_named name [] = none
first_named name (stub ∷ stubs) =
    if bytes_eq name stub.name then some stub else first_named name stubs

abbrev pub or_else : Option RpcStub → Option RpcStub → Option RpcStub
or_else none o = o
or_else (some stub) o = some stub

or_else-none : (o : Option RpcStub) → o ≡ or_else o none
or_else-none none = refl
or_else-none (some stub) = refl

module _ (xml : Xml) where
  open xml use {Node, children}

  -- The nodes have all that a stub needs.
  abbrev pub AllRead : List Node → List RpcStub → Type 0
  AllRead [] [] = Unit {0}
  AllRead [] (stub ∷ stubs) = ⊥
  AllRead (node ∷ nodes) [] = ⊥
  AllRead (node ∷ nodes) (stub ∷ stubs) = (read_stub xml node ≡ ok stub) × AllRead nodes stubs

  find-insert_stub :
      (name : Bytes) (stub : RpcStub) (stubs : List (Bytes × RpcStub)) (later : Option RpcStub)
      → or_else (find name (insert stub.name stub stubs)) later
        ≡ or_else (find name stubs) (if bytes_eq name stub.name then some stub else later)
  find-insert_stub name stub stubs later = elim (Option-cases (find stub.name stubs)) [
    | inl e ↦ ground (
      arith,
      bytes_eq_iff name stub.name,
      find-insert stub.name name stub stubs e,
      Option-cases (find name stubs),
    )
    | inr (old, e) ↦ ground (
      arith,
      bytes_eq_iff name stub.name,
      insert-present stub.name stub old stubs e,
      Option-cases (find name stubs),
    )
  ]

  read_stubs-find :
      (nodes : List Node) (read : List RpcStub) (stubs : List (Bytes × RpcStub)) (name : Bytes)
      → AllRead nodes read
      → Returns
          (λ stubs'. find name stubs' ≡ or_else (find name stubs) (first_named name read))
          (read_stubs xml nodes stubs)
  unfolding read_stubs
  read_stubs-find [] [] stubs name h = (stubs, refl, or_else-none (find name stubs))
  read_stubs-find [] (stub ∷ read) stubs name h = elim h [ ]
  read_stubs-find (node ∷ nodes) [] stubs name h = elim h [ ]
  read_stubs-find (node ∷ nodes) (stub ∷ read) stubs name h =
      let (stubs', ran, found) =
        read_stubs-find nodes read (insert stub.name stub stubs) name h.1 in
      (
        stubs',
        rw (h.0, read_stubs) ran,
        found ∙ find-insert_stub name stub stubs (first_named name read),
      )

  -- Where every node "rpc_server" of the settings has what a stub needs: Init reads them all, and a
  -- name that is no text ip:port stands, for FindAddr, for the address of the stub that the name had
  -- before, or else of the first node of that name; a name that no node has stands for none.
  pub find_addr-read_all_stubs :
      (root node : Node) (read : List RpcStub) (stubs : List (Bytes × RpcStub)) (name : Bytes)
      → first_child xml root (codes "stubs") ≡ some node
      → AllRead (children node (codes "rpc_server")) read
      → is_valid_text name ≡ false
      → Returns
          (λ stubs'.
            find_addr stubs' name ≡ map_addr (or_else (find name stubs) (first_named name read)))
          (read_all_stubs xml root stubs)
  unfolding read_all_stubs find_addr
  find_addr-read_all_stubs root node read stubs name has_stubs all_read no_text =
      let (stubs', ran, found) =
        read_stubs-find (children node (codes "rpc_server")) read stubs name all_read in
      (stubs', rw (has_stubs, read_all_stubs) ran, rw no_text (ap map_addr found))
