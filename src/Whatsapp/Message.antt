-- ===== src/Whatsapp/Message.antt =====
-- internal/whatsapp/messages.go: message bodies, what they say of themselves, and receipts.
-- `Message` holds the fields of whatsmeow's protobuf message that the code reads or writes. A field
-- that may be unset is an `Option`. `protojson.Marshal` and `mime.TypeByExtension` are parameters.
pub mod Laws
mod Tests
use Prim.Native.Char.{code}
use Prim.Native.String.{[], ◌∷◌}
use interactive_whatsapp_meo.Base.{
  ℕ, String, Bool, true, false, not, ◌&&◌, Option, none, some, Result, ok, err, wrap, ◌==◌, str_eq,
  if◌then◌else◌,
}
use interactive_whatsapp_meo.Base.Text.{◌++ₛ◌, is_empty, trim_space, contains, before_sep}
use interactive_whatsapp_meo.Store.Models.{MessageStatus, delivered, read, sent}
use interactive_whatsapp_meo.Whatsapp.Jid.{JidLib}

pub record ContextInfo : Type 0 where
  pub stanza_id : String
  pub participant : String
  pub remote_jid : String

pub record ExtendedText : Type 0 where
  pub text : Option String
  pub context_info : Option ContextInfo

-- `whatsmeow.UploadResponse`; keys and digests are left as texts.
pub record UploadResponse : Type 0 where
  pub url : String
  pub direct_path : String
  pub media_key : String
  pub file_enc_sha256 : String
  pub file_sha256 : String
  pub file_length : ℕ

-- The fields that the image, video, audio and document messages have in common, and those of only
-- some of them.
pub record Media : Type 0 where
  pub caption : Option String
  pub title : Option String
  pub file_name : Option String
  pub mimetype : Option String
  pub upload : UploadResponse

pub record Message : Type 0 where
  pub conversation : Option String
  pub extended_text : Option ExtendedText
  pub image : Option Media
  pub video : Option Media
  pub audio : Option Media
  pub document : Option Media

abbrev pub empty_message : Message
empty_message = record {
  conversation = none;
  extended_text = none;
  image = none;
  video = none;
  audio = none;
  document = none;
}

-- A protobuf getter: the text, or "" if the field is unset.
abbrev pub get_text : Option String → String
get_text none = ""
get_text (some s) = s

pub record MediaMessage : Type 0 where
  pub message : Message
  pub message_type : String
  pub mime_type : String
  pub file_name : String

unfoldable pub new_text_message : String → Message
new_text_message text = record empty_message { conversation = some (trim_space text) }

unfoldable pub new_reply_message : String → String → String → String → Message
new_reply_message text chat_jid sender_jid target_message_id = record empty_message {
  extended_text = some (record {
    text = some (trim_space text);
    context_info =
        some (record {
          stanza_id = target_message_id;
          participant = sender_jid;
          remote_jid = chat_jid;
        });
  });
}

-- `filepath.Ext`: from the last dot on, if no slash follows it.
unfoldable pub file_ext : String → String
file_ext [] = []
file_ext (c ∷ s) =
    let later = file_ext s in
    if not (is_empty later)
    then later
    else if code c == b'.' && not (contains b'/' s)
    then c ∷ s
    else []

-- `mediaBaseFromMime`: `strings.SplitN` never returns an empty slice here.
unfoldable pub media_base_from_mime : String → String
media_base_from_mime mime_type = before_sep b'/' mime_type

-- `whatsmeow.MediaType`
pub data MediaType : Type 0 where
  media_image media_video media_audio media_document : MediaType

unfoldable pub detect_media_type_from_mime : String → MediaType
unfolding media_base_from_mime
detect_media_type_from_mime mime_type =
    let base = media_base_from_mime (trim_space mime_type) in
    if str_eq base "image"
    then media_image
    else if str_eq base "video"
    then media_video
    else if str_eq base "audio"
    then media_audio
    else media_document

-- `types.ReceiptType`, by its constants.
pub data ReceiptType : Type 0 where
  receipt_delivered receipt_read receipt_read_self receipt_played : ReceiptType
  receipt_other : String → ReceiptType

-- `ResolveReceiptStatus`, converted to a `store.MessageStatus` as its caller does.
unfoldable pub resolve_receipt_status : ReceiptType → MessageStatus
resolve_receipt_status receipt_delivered = delivered
resolve_receipt_status receipt_read = read
resolve_receipt_status receipt_read_self = read
resolve_receipt_status receipt_played = read
resolve_receipt_status (receipt_other _) = sent

module _ (type_by_extension : String → String) where
  -- The MIME type that is used: the given one, else by the extension, else the default.
  unfoldable pub effective_mime : String → String → String
  effective_mime mime_type file_name =
      let given = trim_space mime_type in
      let by_name = if is_empty given then type_by_extension (file_ext file_name) else given in
      if is_empty by_name then "application/octet-stream" else by_name

  unfoldable pub build_media_message : UploadResponse → String → String → String → MediaMessage
  unfolding effective_mime media_base_from_mime
  build_media_message upload given file_name caption =
      let mime_type = effective_mime given file_name in
      let base = media_base_from_mime mime_type in
      let plain_media : Media = record {
        caption = some caption;
        title = none;
        file_name = none;
        mimetype = some mime_type;
        upload = upload;
      } in
      if str_eq base "image"
      then record {
        message = record empty_message { image = some plain_media };
        message_type = "image";
        mime_type = mime_type;
        file_name = file_name;
      }
      else if str_eq base "video"
      then record {
        message = record empty_message { video = some plain_media };
        message_type = "video";
        mime_type = mime_type;
        file_name = file_name;
      }
      else if str_eq base "audio"
      then record {
        message = record empty_message { audio = some (record plain_media { caption = none }) };
        message_type = "audio";
        mime_type = mime_type;
        file_name = file_name;
      }
      else record {
        message = record empty_message {
          document =
              some (record plain_media { title = some file_name; file_name = some file_name });
        };
        message_type = "document";
        mime_type = mime_type;
        file_name = file_name;
      }

-- Each reader looks for the first field that is set.
unfoldable pub extract_text : Option Message → String
extract_text none = ""
extract_text (some m) = elim m.conversation [
  | some text ↦ text
  | none ↦ elim m.extended_text [
    | some e ↦ get_text e.text
    | none ↦ elim m.image [
      | some media ↦ get_text media.caption
      | none ↦ elim m.video [
        | some media ↦ get_text media.caption
        | none ↦ elim m.document [ some media ↦ get_text media.caption | none ↦ "" ]
      ]
    ]
  ]
]

unfoldable pub detect_message_type : Option Message → String
detect_message_type none = "unknown"
detect_message_type (some m) = elim m.conversation [
  | some _ ↦ "text"
  | none ↦ elim m.extended_text [
    | some _ ↦ "text"
    | none ↦ elim m.image [
      | some _ ↦ "image"
      | none ↦ elim m.video [
        | some _ ↦ "video"
        | none ↦ elim m.audio [
          | some _ ↦ "audio"
          | none ↦ elim m.document [ some _ ↦ "document" | none ↦ "unknown" ]
        ]
      ]
    ]
  ]
]

-- The MIME type and the file name.
unfoldable pub media_metadata : Option Message → String × String
media_metadata none = ("", "")
media_metadata (some m) = elim m.image [
  | some media ↦ (get_text media.mimetype, "")
  | none ↦ elim m.video [
    | some media ↦ (get_text media.mimetype, "")
    | none ↦ elim m.audio [
      | some media ↦ (get_text media.mimetype, "")
      | none ↦ elim m.document [
        | some media ↦ (get_text media.mimetype, get_text media.file_name)
        | none ↦ ("", "")
      ]
    ]
  ]
]

module _ (marshal : Message → Option String) where
  -- `MarshalMessage`: the JSON text, `{}` where there is none.
  unfoldable pub marshal_message : Option Message → String
  marshal_message none = "{}"
  marshal_message (some m) = elim (marshal m) [ none ↦ "{}" | some payload ↦ payload ]

module _ (lib : JidLib) where
  open lib use {Jid, parse_jid, quoted}

  unfoldable pub must_parse_jid : String → Result Jid
  must_parse_jid raw = elim (parse_jid raw) [
    | ok jid ↦ ok jid
    | err e ↦ err (wrap ("parse jid " ++ₛ quoted raw) e)
  ]
