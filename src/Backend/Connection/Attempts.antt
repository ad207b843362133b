-- ===== src/Backend/Connection/Attempts.antt =====
-- Which address a connection ends up at.
use iot_ftp_upload_gateway.Base.{◌≡◌, refl, ap, ◌∙◌, List, [], ◌∷◌, ◌++◌, Option, none, some, All}
use iot_ftp_upload_gateway.Io.{ErrorKind, IoResult, ok, err}
use iot_ftp_upload_gateway.Net.{Ipv4Addr, SocketAddr}
use iot_ftp_upload_gateway.Backend.Connection.{connect_from, reachable, try_addrs, connect_inner}

module _ {A : Type 0} where
  abbrev pub Fails : (SocketAddr → IoResult A) → SocketAddr → Type 0
  Fails connect addr = (kind : ErrorKind) × (connect addr ≡ err kind)

  -- The first address that connects, after others that do not.
  pub record First (connect : SocketAddr → IoResult A) (addrs : List SocketAddr) (stream : A)
      : Type 0 where
    pub before : List SocketAddr
    pub addr : SocketAddr
    pub after : List SocketAddr
    pub split : addrs ≡ before ++ addr ∷ after
    pub failed : All (Fails connect) before
    pub connects : connect addr ≡ ok stream

  skip_one :
      (connect : SocketAddr → IoResult A) (addr : SocketAddr) (addrs : List SocketAddr) (stream : A)
      → Fails connect addr
      → First connect addrs stream
      → First connect (addr ∷ addrs) stream
  skip_one connect addr addrs stream fails f = record {
    before = addr ∷ f.before;
    addr = f.addr;
    after = f.after;
    split = ap (λ (xs : List SocketAddr). addr ∷ xs) f.split;
    failed = (fails, f.failed);
    connects = f.connects;
  }

  on_result :
      (connect : SocketAddr → IoResult A) (addr : SocketAddr) (addrs : List SocketAddr) (stream : A)
      → ((kind : ErrorKind)
          → try_addrs connect (some kind) addrs ≡ ok stream
          → First connect addrs stream)
      → (r : IoResult A) → connect addr ≡ r
      → (elim r [ ok found ↦ ok found | err kind ↦ try_addrs connect (some kind) addrs ])
        ≡ ok stream
      → First connect (addr ∷ addrs) stream
  on_result connect addr addrs stream next (ok found) e h = record {
    before = [];
    addr = addr;
    after = addrs;
    split = refl;
    failed = tt;
    connects = e ∙ h;
  }
  on_result connect addr addrs stream next (err kind) e h =
      skip_one connect addr addrs stream (kind, e) (next kind h)

  try_addrs-First :
      (connect : SocketAddr → IoResult A) (last : Option ErrorKind) (addrs : List SocketAddr)
      (stream : A)
      → try_addrs connect last addrs ≡ ok stream
      → First connect addrs stream
  unfolding try_addrs
  try_addrs-First connect last [] stream h = cc
  try_addrs-First connect last (addr ∷ addrs) stream h =
      on_result connect addr addrs stream
        (λ kind k. try_addrs-First connect (some kind) addrs stream k) (connect addr) refl h

-- A connection that was made is to the first of the resolved addresses that connects, of those
-- that the source address can reach; all that stand before it were tried and failed.
pub connect_inner-First :
    {A : Type 0} (dial : Option Ipv4Addr → SocketAddr → IoResult A) (addrs : List SocketAddr)
    (source : Option Ipv4Addr) (stream : A)
    → connect_inner dial (ok addrs) source ≡ ok stream
    → First (connect_from dial source) (reachable source addrs) stream
unfolding connect_inner
connect_inner-First dial addrs source stream h =
    try_addrs-First (connect_from dial source) none (reachable source addrs) stream h
