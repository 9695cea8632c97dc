-- ===== src/Publish/Stored.antt =====
-- What is stored of an upload.
use cargo_website.Base.{
  ok_injective, ℕ, ◌≡◌, sym, ap, ◌∙◌, arith, Bool, true, false, List, ◌∷◌, ok, err, if◌then◌else◌,
  bind-eq-ok,
}
use cargo_website.Base.Text.{Text}
use cargo_website.Io.{Reader}
use cargo_website.Publish.Tables.{Crate, failed_upload}
use cargo_website.Publish.Tarballs.{
  Files, crate_path, verify_tarball, read_body, upload, upload_crate, Maximums, Libraries,
}

stored_file :
    (lib : Libraries) (b : Bool) (path : Text) (content : List ℕ) (files files' : Files)
    → (if b then ok ((path, content) ∷ files) else err failed_upload) ≡ ok files'
    → files' ≡ (path, content) ∷ files
stored_file lib true path content files files' h = ground arith
stored_file lib false path content files files' h = cc

-- A verified content was stored under the path of the version, and its digest is the result.
pub record IsStored (lib : Libraries) (krate : Crate) (vers : Text) (files : Files) (cksum : List ℕ)
    (files' : Files) : Type 0 where
  pub content : List ℕ
  pub max_unpack : ℕ
  pub verified : verify_tarball lib krate vers content max_unpack ≡ ok tt
  pub is_digest : cksum ≡ lib.sha256 content
  pub stored : files' ≡ (crate_path krate.name vers, content) ∷ files

pub upload_crate-IsStored :
    (lib : Libraries) (body : Reader) (krate : Crate) (maximums : Maximums) (vers : Text)
    (files : Files) (cksum : List ℕ) (files' : Files)
    → upload_crate lib body krate maximums vers files ≡ ok (cksum, files')
    → IsStored lib krate vers files cksum files'
unfolding upload_crate upload
upload_crate-IsStored lib body krate maximums vers files cksum files' h =
    let (content, _, k) = bind-eq-ok (read_body lib maximums.max_upload_size body) _ h in
    let (checked, e, k1) =
      bind-eq-ok (verify_tarball lib krate vers content maximums.max_unpack_size) _ k in
    let (files1, f, k2) = bind-eq-ok (upload lib (crate_path krate.name vers) content files) _ k1 in
    let same : (lib.sha256 content, files1) ≡ (cksum, files') = ok_injective k2 in
    record {
      content = content;
      max_unpack = maximums.max_unpack_size;
      verified = e;
      is_digest = ap (λ (p : List ℕ × Files). p.0) (sym same);
      stored =
          ap (λ (p : List ℕ × Files). p.1) (sym same)
          ∙ stored_file lib (lib.put (crate_path krate.name vers) content)
              (crate_path krate.name vers) content files files1 f;
    }
