-- ===== src/Whatsapp/Message/Laws.antt =====
-- What is read back from a media message agrees with what it was built from.
use interactive_whatsapp_meo.Base.{
  String, true, false, ◌≡◌, refl, some, inl, inr, Bool-cases, arith, str_eq, if◌then◌else◌,
}
use interactive_whatsapp_meo.Base.Text.{is_empty, eq_nil_of_is_empty, trim_space}
use interactive_whatsapp_meo.Whatsapp.Message.{
  UploadResponse, MediaType, media_image, media_video, media_audio, media_document, effective_mime,
  build_media_message, detect_media_type_from_mime, extract_text, detect_message_type,
  media_metadata, media_base_from_mime,
}

abbrev pub kind_of : MediaType → String
kind_of media_image = "image"
kind_of media_video = "video"
kind_of media_audio = "audio"
kind_of media_document = "document"

module _ (type_by_extension : String → String) (upload : UploadResponse)
    (mime_type file_name caption : String) where
  -- Of a built media message the readers report its kind, its MIME type, its file name if it is a
  -- document, and its caption unless it is an audio.
  pub build_media_message-read_back :
      let built = build_media_message type_by_extension upload mime_type file_name caption in
      (detect_message_type (some built.message) ≡ built.message_type)
      × (media_metadata (some built.message) ≡ (
        effective_mime type_by_extension mime_type file_name,
        (if str_eq built.message_type "document" then file_name else ""),
      ))
      × (extract_text (some built.message)
          ≡ (if str_eq built.message_type "audio" then "" else caption))
  unfolding build_media_message detect_message_type media_metadata extract_text
  build_media_message-read_back =
      let base = media_base_from_mime (effective_mime type_by_extension mime_type file_name) in
      elim (Bool-cases (str_eq base "image")) [
        | inl i ↦ rw i (refl, refl, refl)
        | inr i ↦ elim (Bool-cases (str_eq base "video")) [
          | inl v ↦ rw (i, v) (refl, refl, refl)
          | inr v ↦ elim (Bool-cases (str_eq base "audio")) [
            | inl a ↦ rw (i, v, a) (refl, refl, refl)
            | inr a ↦ rw (i, v, a) (refl, refl, refl)
          ]
        ]
      ]

  -- With a MIME type given, the contents are uploaded as the kind of media that the message says
  -- they are.
  pub build_media_message-upload_kind :
      is_empty (trim_space mime_type) ≡ false
      → (build_media_message type_by_extension upload mime_type file_name caption).message_type
        ≡ kind_of (detect_media_type_from_mime mime_type)
  unfolding build_media_message detect_media_type_from_mime
  build_media_message-upload_kind h = ground arith

  -- With no MIME type given the contents are uploaded as a document, whatever kind of media the
  -- file's extension makes of the message.
  pub build_media_message-blank_upload_kind :
      is_empty (trim_space mime_type) ≡ true
      → detect_media_type_from_mime mime_type ≡ media_document
  unfolding detect_media_type_from_mime
  build_media_message-blank_upload_kind h = rw (eq_nil_of_is_empty _ h)
