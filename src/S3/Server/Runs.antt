-- ===== src/S3/Server/Runs.antt =====
-- A run of the server of pkg/s3: requests one after the other, and parts that were staged before and are
-- attached late.
use objectstorage.Prelude.{◌≡◌, subst, sym}
use objectstorage.Prelude.Bytes.{Bytes, bytes_Eq}
use objectstorage.Prelude.Dict.{get}
use objectstorage.Prelude.Int.{ℤ}
use objectstorage.Store.Types.{Env}
use objectstorage.Store.Bucket.{Faults}
use objectstorage.Store.Buckets.Sound.{IsSound}
use objectstorage.Http.{Request}
use objectstorage.S3.Body.{Host}
use objectstorage.S3.Multipart.{StagedPart, Server, attach_part}
use objectstorage.S3.Multipart.Kept.{attach_part-IsSound}
use objectstorage.S3.Server.{serve_http}
use objectstorage.S3.Server.Kept.{serve_http-IsSound}

-- Each step has a host of its own, with the same digests and JSON.
pub data Runs (env : Env) (s : Server) : Server → Type 0 where
  starts : Runs env s s
  serves :
      (s' : Server) (host : Host) (fails : Bytes → Faults) (r : Request) (path : Bytes)
      → host.env ≡ env
      → Runs env s s'
      → Runs env s (serve_http host fails r path s').1
  attaches :
      (s' : Server) (host : Host) (bucket key id : Bytes) (number : ℤ) (part : StagedPart)
      → host.env ≡ env
      → Runs env s s'
      → Runs env s (attach_part host bucket key id number part (get id s'.uploads) s').1

-- Whatever requests a server is sent, one after the other, whatever calls fail in them, and whatever
-- parts are attached late: a store that was sound when the server started is sound after them.
pub Runs-IsSound :
    (env : Env) (s s' : Server) → IsSound env s.store → Runs env s s' → IsSound env s'.store
Runs-IsSound env s s' h starts = h
Runs-IsSound env s s' h (serves s'' host fails r path e run) =
    let k = Runs-IsSound env s s'' h run in
    subst (λ x. IsSound x (serve_http host fails r path s'').1.store) e
      (serve_http-IsSound host r fails path s'' (subst (λ x. IsSound x s''.store) (sym e) k))
Runs-IsSound env s s' h (attaches s'' host bucket key id number part e run) =
    let k = Runs-IsSound env s s'' h run in
    subst
      (λ x. IsSound x (attach_part host bucket key id number part (get id s''.uploads) s'').1.store)
      e
      (attach_part-IsSound host bucket key id number part (get id s''.uploads) s''
        (subst (λ x. IsSound x s''.store) (sym e) k))
