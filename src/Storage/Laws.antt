-- ===== src/Storage/Laws.antt =====
-- What the calls of the object store do to the objects, and that they leave the tables alone.
use online_colab_document.Base.{
  String, List, Option, some, true, false, ◌==◌, if◌then◌else◌, ◌≡◌, arith, find_where,
  delete_where, find_where-delete_where, ==_iff,
}
use online_colab_document.World.{World, Object, ok, err, internal}
use online_colab_document.Storage.{has_key, put_object, delete_object, ensure_bucket}

-- The object at a key, if there is one.
abbrev pub object_at : String → World → Option Object
object_at key w = find_where (has_key key) w.objects

find-delete :
    (other key : String) (os : List Object)
    → (other == key) ≡ false
    → find_where (has_key other) (delete_where (has_key key) os) ≡ find_where (has_key other) os
find-delete other key os h =
    find_where-delete_where (has_key other) (has_key key) os
      λ o k. ground (arith, ==_iff o.key other, ==_iff o.key key, ==_iff other key)

module _ (w : World) where
  ensure_bucket-frame : ((ensure_bucket w).1.db ≡ w.db) × ((ensure_bucket w).1.objects ≡ w.objects)
  unfolding ensure_bucket
  ensure_bucket-frame = ground arith

module _ (key body content_type : String) (w : World) where
  pub put_object-db : (put_object key body content_type w).1.db ≡ w.db
  unfolding put_object
  put_object-db = ground (arith, ensure_bucket-frame w)

  pub put_object-object_at :
      (other : String)
      → object_at other (put_object key body content_type w).1 ≡ (
          if other == key
          then elim (put_object key body content_type w).0 [
            | ok u ↦ some (record { key = key; body = body; content_type = content_type })
            | err e ↦ object_at other w
          ]
          else object_at other w)
  unfolding put_object find_where
  put_object-object_at other = ground (
    arith,
    ensure_bucket-frame w,
    ==_iff key other,
    ==_iff other key,
    find-delete other key w.objects,
  )

module _ (key : String) (w : World) where
  pub delete_object-db : (delete_object key w).1.db ≡ w.db
  unfolding delete_object
  delete_object-db = ground arith

  pub delete_object-object_at :
      (other : String)
      → (other == key) ≡ false
      → object_at other (delete_object key w).1 ≡ object_at other w
  unfolding delete_object
  delete_object-object_at other h = ground (arith, find-delete other key w.objects)

pub put_object-env :
    (key body content_type : String) (w : World)
    → (put_object key body content_type w).1.env ≡ w.env
unfolding put_object ensure_bucket
put_object-env key body content_type w = ground arith

-- If the first look for the bucket fails, then in the world that this leaves every further put
-- fails, and leaves the same world: the bucket is not looked for again.
pub put_object_stuck :
    (key body content_type key' body' content_type' : String) (w : World)
    → w.ensured ≡ false
    → w.env.fault w.calls ≡ true
    → let w' = (put_object key body content_type w).1 in
      put_object key' body' content_type' w' ≡ (err internal, w')
unfolding put_object ensure_bucket
put_object_stuck key body content_type key' body' content_type' w first failed = ground arith
