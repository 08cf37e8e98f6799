-- ===== src/Resolve/Remote.antt =====
-- pkg/resolve/resolve.go: the client's address, for the router.
use zonegit.Base.{[], ◌∷◌, length, Bytes, ◌==◌, if◌then◌else◌, Option, none, some, cut_last}
use zonegit.Resolve.{Config, Router, Edns}

-- The address without the port; the colon may not come first.
unfoldable pub host_of : Bytes → Bytes
host_of addr = elim (cut_last 58 addr) [
  | none ↦ addr
  | some (host, port) ↦ if length host == 0 then addr else host
]

-- `remoteIP`; no address stands for a nil one.
unfoldable pub remote_ip : Option Bytes → Option Edns → Bytes
unfolding host_of
remote_ip remote edns = elim edns [
  | some opt ↦ elim opt.subnets [
    | address ∷ _ ↦ address
    | [] ↦ elim remote [ none ↦ [] | some addr ↦ host_of addr ]
  ]
  | none ↦ elim remote [ none ↦ [] | some addr ↦ host_of addr ]
]

-- `wrappedRouter`
unfoldable pub wrapped_router : Router → Bytes → Router
wrapped_router base ip q = base (record q { client_ip = ip })

unfoldable pub with_client : Config → Bytes → Config
unfolding wrapped_router
with_client cfg ip = elim cfg.router [
  | none ↦ cfg
  | some base ↦
      if length ip == 0 then cfg else record cfg { router = some (wrapped_router base ip) }
]
