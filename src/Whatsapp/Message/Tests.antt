-- ===== src/Whatsapp/Message/Tests.antt =====
-- Runs of the message code, and its theorems at inputs.
use interactive_whatsapp_meo.Base.{String, ◌≡◌, refl, some, str_eq, if◌then◌else◌}
use interactive_whatsapp_meo.Base.Text.{trim_space}
use interactive_whatsapp_meo.Whatsapp.Message.{
  UploadResponse, effective_mime, build_media_message, detect_media_type_from_mime, extract_text,
  detect_message_type, media_metadata, media_document, file_ext,
}
use interactive_whatsapp_meo.Whatsapp.Message.Laws.{
  kind_of, build_media_message-read_back, build_media_message-upload_kind,
}

extensions : (file_ext "a/b.tar.gz" ≡ ".gz") × (file_ext "a.b/c" ≡ "") × (file_ext "x." ≡ ".")
unfolding file_ext
extensions = (refl, refl, refl)

abbrev by_name : String → String
by_name ext = if str_eq ext ".jpg" then "image/jpeg" else ""

abbrev stored : UploadResponse
stored = record {
  url = "u";
  direct_path = "d";
  media_key = "k";
  file_enc_sha256 = "e";
  file_sha256 = "s";
  file_length = 7;
}

-- The upload and the message disagree where only the file's name tells the kind.
blank_mime :
    ((build_media_message by_name stored " " "photo.jpg" "hi").message_type ≡ "image")
    × (detect_media_type_from_mime " " ≡ media_document)
unfolding build_media_message detect_media_type_from_mime trim_space file_ext
blank_mime = (refl, refl)

build_media_message-read_back_example :
    let built = build_media_message by_name stored "video/mp4" "clip.mp4" "hi" in
    (detect_message_type (some built.message) ≡ built.message_type)
    × (media_metadata (some built.message) ≡ (
      effective_mime by_name "video/mp4" "clip.mp4",
      (if str_eq built.message_type "document" then "clip.mp4" else ""),
    ))
    × (extract_text (some built.message) ≡ (if str_eq built.message_type "audio" then "" else "hi"))
build_media_message-read_back_example =
    build_media_message-read_back by_name stored "video/mp4" "clip.mp4" "hi"

build_media_message-upload_kind_example :
    (build_media_message by_name stored "audio/ogg" "a.ogg" "").message_type
    ≡ kind_of (detect_media_type_from_mime "audio/ogg")
unfolding trim_space
build_media_message-upload_kind_example =
    build_media_message-upload_kind by_name stored "audio/ogg" "a.ogg" "" refl
