-- ===== src/Rpc/Channel/FindAddrTests.antt =====
-- A document with two stubs of one name, as a table of the children and of the texts of its nodes.
use netrpc.Base.{
  ℕ, ◌+◌, ◌||◌, ◌≡◌, refl, Bytes, codes, false, Returns, pos, some, List, [], ◌∷◌, ◌==◌,
  if◌then◌else◌, to_word,
}
use netrpc.StdMap.{find, bytes_eq, bytes_key}
use netrpc.Decimal.{atoi, is_space, read_digits, is_digit}
use netrpc.NetAddr.{is_valid_text, split_addr, to_uint16}
use netrpc.Config.{Xml, RpcStub, child_text, read_stub, read_all_stubs}
use netrpc.Rpc.ServiceName.{find_first_of}
use netrpc.Rpc.Channel.{find_addr, map_addr}
use netrpc.Rpc.Channel.FindAddr.{first_named, or_else, AllRead, find_addr-read_all_stubs}

-- The node 0 is the root, 1 the stubs, 2 and 3 two of them; their children are the numbers from 20
-- and from 30 on.
abbrev field_of : ℕ → Bytes → List ℕ
field_of base name =
    if bytes_eq name (codes "name")
    then base ∷ []
    else if bytes_eq name (codes "ip")
    then (base + 1) ∷ []
    else if bytes_eq name (codes "port")
    then (base + 2) ∷ []
    else (base + 3) ∷ []

abbrev children_of : ℕ → Bytes → List ℕ
children_of node name =
    if node == 0
    then 1 ∷ []
    else if node == 1
    then 2 ∷ 3 ∷ []
    else if node == 2
    then field_of 20 name
    else field_of 30 name

abbrev text_of : ℕ → Bytes
text_of node =
    if node == 21
    then codes "10.0.0.7"
    else if node == 31
    then codes "10.0.0.8"
    else if (node == 20) || (node == 30)
    then codes "Order"
    else codes "80"

abbrev document : Xml
document = record { Node = ℕ; children = children_of; text = λ node. some (text_of node) }

abbrev stub_at : Bytes → RpcStub
stub_at ip = record { name = codes "Order"; addr = record { ip = ip; port = 80 }; timeout = pos 80 }

abbrev stubs_read : List RpcStub
stubs_read = stub_at (codes "10.0.0.7") ∷ stub_at (codes "10.0.0.8") ∷ []

stubs-AllRead : AllRead document (2 ∷ 3 ∷ []) stubs_read
unfolding read_stub child_text bytes_eq atoi is_space read_digits is_digit to_uint16 to_word
stubs-AllRead = (refl, (refl, tt))

no_text : is_valid_text (codes "Order") ≡ false
unfolding is_valid_text split_addr find_first_of
no_text = refl

find_addr-read_all_stubs_example :
    Returns
      (λ stubs'.
        find_addr stubs' (codes "Order")
        ≡ map_addr (or_else (find (codes "Order") []) (first_named (codes "Order") stubs_read)))
      (read_all_stubs document 0 [])
find_addr-read_all_stubs_example =
    find_addr-read_all_stubs document 0 1 stubs_read [] (codes "Order") refl stubs-AllRead no_text
