-- ===== src/Tests/Office.antt =====
-- Office documents at the fixture, with a Word document of the first account.
use Prim.Native.String.{String, len}
use online_colab_document.Base.{
  ◌^◌, ◌-◌, nat_eq, none, ℕ, ◌+◌, ◌≤◌, [], ◌∷◌, some, true, false, ◌&&◌, ltb, ◌==◌, ==_iff,
  if◌then◌else◌, pos, ◌≡◌, ◌≢◌, refl, arith, find_where, any_where, update_where, delete_where,
  max_where, List,
}
use online_colab_document.Text.{is_dot, to_lower, trim_right, lower_char, folded, equal_fold}
use online_colab_document.Model.Document.{Document}
use online_colab_document.Model.Office.{WopiClaims, Config}
use online_colab_document.World.{Env, Result, World, ok, err, internal, office_forbidden, called}
use online_colab_document.World.Laws.{returned}
use online_colab_document.Permission.Repository.{is_live}
use online_colab_document.Permission.Access.{access, allows_view, allows_edit}
use online_colab_document.Permission.Repository.{document_owner_id, find_for_user}
use online_colab_document.Permission.Service.{role, can_view, can_edit}
use online_colab_document.Storage.{put_object, get_object, read_all, ensure_bucket}
use online_colab_document.Document.Repository.{
  find_by_id, add_document_version, next_version_no, insert_version, set_current,
}
use online_colab_document.Document.Service.{store_version, or_delete_object}
use online_colab_document.Document.Saving.{HoldsContent, stored_row}
use online_colab_document.Uuid.{new_uuid, uuid_text, stamp}
use online_colab_document.Encoding.Bytes.{utf8, encode_rune, text_of, same_bytes}
use online_colab_document.Encoding.Base64.{sextets, encode, index_of, values, octets, decode}
use online_colab_document.Encoding.Split.{split, join}
use online_colab_document.Office.Editor.{is_casual_supported, editor_kind}
use online_colab_document.Office.Service.{
  Service, Info, new_service, wopi_info, wopi_content, wopi_save, save, read_content, read_limited,
  authorize_collab, key_for,
}
use online_colab_document.Http.Response.{Request, Response, done, refused, decimal}
use online_colab_document.Office.Handler
use online_colab_document.Office.Routes.{wopi_save_done}
use online_colab_document.Office.Limited.{Agrees, read_all-read_limited}
use online_colab_document.Office.Live.{Verifies, wopi_info_ok, authorize_collab_ok}
use online_colab_document.Office.Saving.{limit, kept, ready, save_ok, save_error, save-wopi_content}
use online_colab_document.Wiring.{office_service}
use online_colab_document.Office.Token.{
  unix, token_ttl, claims_for, not_after, mint_wopi_token, verify_wopi_token, sign_jwt, verify_jwt,
}
use online_colab_document.Office.Signed.{IsCodec, IsSigned, mint-verify, verify_wopi_token_ok}
use online_colab_document.Tests.Fixture.{start, calm, alice, notes}

abbrev cfg : Config
cfg = record {
  provider = "";
  public_api_url = "https://docs.example.org/";
  collab_public_url = "";
  collab_enabled = false;
  jwt_secret = "0123456789abcdef";
  docs_editor_url = "https://edit.example.org";
  sheets_editor_url = "https://sheets.example.org";
  max_upload_bytes = pos 10;
}

-- The claims that the codec of these tests knows.
abbrev granted : WopiClaims
granted = claims_for alice "paper" "editor" "docs" 1000

abbrev codec : Env
codec = record calm {
  hmac_sha256 = λ key message. 1 ∷ 2 ∷ 3 ∷ [];
  claims_json = λ c. 123 ∷ 125 ∷ [];
  parse_claims = λ bytes. some granted;
}

abbrev paper : Document
paper = record notes { id = "paper"; original_filename = "paper.docx"; file_ext = "docx" }

abbrev office : World
office = record start { env = codec; db = record start.db { documents = paper ∷ notes ∷ [] } }

codec-IsCodec : IsCodec codec granted
codec-IsCodec = record {
  digests = λ key message. (omega arith, (omega arith, (omega arith, tt)));
  written = (omega arith, (omega arith, tt));
  read_back = refl;
}

abbrev text_in : Result String → String
text_in (ok s) = s
text_in (err e) = ""

abbrev minted : String
minted = text_in (mint_wopi_token cfg alice "paper" "editor" "docs" office).0

alice_is_named : alice.id ≢ ""
unfolding ◌==◌
alice_is_named e = absurd (ground (arith, ==_iff alice.id ""))

paper_is_named : paper.id ≢ ""
unfolding ◌==◌
paper_is_named e = absurd (ground (arith, ==_iff paper.id ""))

mint-verify_example : (verify_wopi_token cfg minted "paper" office).0 ≡ (
    if "paper" == "paper"
      && ltb (unix (office.env.time office.calls)) (unix (office.env.time office.calls + token_ttl))
    then ok granted
    else err office_forbidden)
unfolding mint_wopi_token
mint-verify_example =
    mint-verify cfg alice "paper" "editor" "docs" office
      (returned (mint_wopi_token cfg alice "paper" "editor" "docs") office refl) codec-IsCodec
      alice_is_named paper_is_named office refl "paper"

-- What the operations of the package compute with.
runs : Unit {0}
unfolding mint_wopi_token sign_jwt verify_wopi_token verify_jwt utf8 encode_rune text_of sextets
    encode index_of values octets decode split join same_bytes is_dot to_lower lower_char folded
    equal_fold trim_right wopi_info wopi_content wopi_save save read_content read_limited
    authorize_collab office_service new_service is_casual_supported editor_kind find_by_id can_view
    can_edit role document_owner_id find_for_user find_where any_where update_where delete_where
    max_where ◌==◌ store_version or_delete_object put_object get_object read_all ensure_bucket
    add_document_version next_version_no insert_version set_current new_uuid uuid_text stamp access
runs = tt

abbrev service : Service
service = office_service cfg

verify_wopi_token_ok_example :
    IsSigned codec service.cfg.jwt_secret (split b'.' minted) granted
    × (granted.file_id ≡ "paper")
    × (not_after granted.expires_at (unix (office.env.time office.calls)) ≡ false)
    × ((verify_wopi_token service.cfg minted "paper" office).1 ≡ called office)
unfolding runs
verify_wopi_token_ok_example =
    verify_wopi_token_ok service.cfg minted "paper" office
      (returned (verify_wopi_token service.cfg minted "paper") office refl)

abbrev info_in : Result Info → Info
info_in (ok i) = i
info_in (err e) = record { document = paper; can_edit = false; version = "" }

wopi_info_ok_example :
    (c : WopiClaims) × Verifies cfg minted "paper" office c
    × (find_where (is_live "paper") office.db.documents ≡ some paper)
    × (allows_view (access office.db c.subject "paper") ≡ true)
    × ((info_in (wopi_info service minted "paper" office).0).can_edit
        ≡ allows_edit (access office.db c.subject "paper"))
unfolding runs
wopi_info_ok_example =
    wopi_info_ok cfg minted "paper" office (returned (wopi_info service minted "paper") office refl)

abbrev as_writer : String
as_writer = "write"

authorize_collab_ok_example :
    (c : WopiClaims) × Verifies cfg minted "paper" office c
    × (c.kind ≡ "docs")
    × (allows_view (access office.db c.subject "paper") ≡ true)
    × (as_writer ≡ (if allows_edit (access office.db c.subject "paper") then "write" else "view"))
unfolding runs
authorize_collab_ok_example =
    authorize_collab_ok cfg minted "paper" "docs" office
      (returned (authorize_collab service minted "paper" "docs") office refl)

abbrev saved : World
saved = (save service alice "paper" "content" office).1

save_ok_example :
    (find_where (is_live "paper") office.db.documents ≡ some paper)
    × (is_casual_supported paper.file_ext ≡ true)
    × (allows_edit (access office.db alice.id "paper") ≡ true)
    × (len (kept cfg "content") ≤ limit cfg)
    × (7 ≡ len (kept cfg "content"))
    × HoldsContent "paper"
        (stored_row
          (key_for paper)
          paper
          (kept cfg "content")
          (some alice.id)
          (ready cfg alice "paper" "content" office))
        (kept cfg "content")
        saved
unfolding runs
save_ok_example =
    save_ok cfg alice "paper" "content" office
      (returned (save service alice "paper" "content") office refl)

abbrev opened : Result (Document × String × String) → Document × String × String
opened (ok r) = r
opened (err e) = (paper, "", "")

abbrev reader : String
reader = (opened (wopi_content service minted "paper" saved).0).1

abbrev after_read : World
after_read = (wopi_content service minted "paper" saved).1

save-wopi_content_example :
    ((opened (wopi_content service minted "paper" saved).0).0
      ≡ stored_row
          (key_for paper)
          paper
          (kept cfg "content")
          (some alice.id)
          (ready cfg alice "paper" "content" office))
    × ((read_all reader after_read).0
        ≡ (if after_read.env.fault after_read.calls then err internal else ok (kept cfg "content")))
unfolding runs
save-wopi_content_example =
    save-wopi_content cfg alice "paper" "content" minted office
      (returned (save service alice "paper" "content") office refl)
      (returned (wopi_content service minted "paper") saved refl)

read_all-read_limited_example :
    (content : List ℕ) × Agrees (λ k. 3) (λ k. k) (λ k. true) (pos 2) "abcd" office content
read_all-read_limited_example =
    read_all-read_limited (λ k. 3) (λ k. k) (λ k. true) (pos 2) "abcd" office refl

-- Under the greatest limit the sum wraps around, and a save keeps nothing.
abbrev widest : Config
widest = record cfg { max_upload_bytes = pos (2 ^ 63 - 1) }

kept_widest : (save (office_service widest) alice "paper" "content" office).0 ≡ ok (paper, 0)
unfolding runs
kept_widest = refl

-- The transaction's last call fails, and the object is deleted again.
abbrev failing : World
failing = record office { env = record codec { fault = λ n. nat_eq n 11 } }

save_error_example : (save service alice "paper" "content" failing).1.db ≡ failing.db
unfolding runs
save_error_example =
    save_error cfg alice "paper" "content" failing {e = internal}
      {w' = (save service alice "paper" "content" failing).1} refl

abbrev request : Request
request = record {
  forwarded_for = "";
  remote_addr = "10.0.0.1:80";
  user_agent = "";
  split_host_port = λ s. some "10.0.0.1";
}

abbrev version_in : Response String → String
version_in (done status version) = version
version_in (refused status message) = ""

wopi_save_done_example :
    (c : WopiClaims) × Verifies cfg minted "paper" office c
    × (allows_edit (access office.db c.subject "paper") ≡ true)
    × (len (kept cfg "content") ≤ limit cfg)
    × (d : Document) × HoldsContent "paper" d "content"
        (wopi_save service minted "paper" "content" office).1
unfolding runs
wopi_save_done_example =
    wopi_save_done cfg none request minted "paper" "content" office {status = 200}
      {version = version_in
        (Handler.wopi_save service none request minted "paper" "content" office).0}
      {w' = (Handler.wopi_save service none request minted "paper" "content" office).1}
      (unfold Handler.wopi_save decimal in refl)
