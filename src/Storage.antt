-- ===== src/Storage.antt =====
-- backend/internal/storage/minio.go: the object store behind `storage.Storage`.
pub mod Laws
use online_colab_document.Base.{
  ℕ, String, List, [], ◌∷◌, Option, some, none, Bool, true, false, not, ◌==◌, if◌then◌else◌,
  find_where, delete_where,
}
use online_colab_document.World.{
  Error, internal, Result, ok, err, Object, World, M, pure, throw, ◌>>=◌, ◌>>◌, call, lift, attempt,
}

abbrev mark : Bool → World → World
mark failed w = record w { ensured = true; ensure_err = failed }

-- The body of `ensureOnce.Do`: it runs once in the life of the process.
abbrev ensured_with : Result (Unit {0}) → M (Unit {0})
ensured_with (ok u) w = (ok tt, mark false w)
ensured_with (err e) w = (err internal, mark true w)

create_bucket : Bool → M (Unit {0})
create_bucket true = pure tt
create_bucket false = do call; λ w. (ok tt, record w { bucket_exists = true })

ensure_once : M (Unit {0})
unfolding create_bucket
ensure_once = do done ← attempt (call >> λ w. create_bucket w.bucket_exists w); ensured_with done

-- The error of the one attempt is returned by every later call.
unfoldable pub ensure_bucket : M (Unit {0})
unfolding ensure_once
ensure_bucket w =
    if w.ensured then (if w.ensure_err then (err internal, w) else (ok tt, w)) else ensure_once w

abbrev pub has_key : String → Object → Bool
has_key key o = o.key == key

unfoldable pub put_object : String → String → String → M (Unit {0})
put_object key body content_type = do
  ensure_bucket
  call
  λ w. (
    ok tt,
    record w {
      objects =
          record { key = key; body = body; content_type = content_type }
          ∷ delete_where (has_key key) w.objects;
    },
  )

-- MinIO's reader is lazy: a missing object is an error of the first read.
unfoldable pub get_object : String → M String
get_object key = do call; pure key

abbrev object_body : Option Object → Result String
object_body none = err internal
object_body (some o) = ok o.body

-- `io.ReadAll` of the reader.
unfoldable pub read_all : String → M String
read_all key = do call; λ w. (object_body (find_where (has_key key) w.objects), w)

unfoldable pub delete_object : String → M (Unit {0})
delete_object key = do
  call
  λ w. (ok tt, record w { objects = delete_where (has_key key) w.objects })
