-- ===== src/Header/Types.antt =====
-- bjnp/src/header.rs: `PacketType` and `PayloadType`.
use scanner_button.Prelude.{ℕ, ◌≡◌, refl, String, [], ◌∷◌, arith, ◌<◌, some}
use scanner_button.Serdes.Field.{Field, IsField, find_variant}

pub data PacketType : Type 0 where
  printer_command scanner_command printer_response scanner_response : PacketType

abbrev packet_type_value : PacketType → ℕ
packet_type_value printer_command = 0x01
packet_type_value scanner_command = 0x02
packet_type_value printer_response = 0x81
packet_type_value scanner_response = 0x82

abbrev packet_type_name : PacketType → String
packet_type_name printer_command = "printer cmd"
packet_type_name scanner_command = "scanner cmd"
packet_type_name printer_response = "printer res"
packet_type_name scanner_response = "scanner res"

abbrev pub packet_type_field : Field PacketType
packet_type_field = record {
  field_name = "packet type";
  variants =
      (printer_command, 0x01)
      ∷ (scanner_command, 0x02)
      ∷ (printer_response, 0x81)
      ∷ (scanner_response, 0x82)
      ∷ [];
  as_repr = packet_type_value;
  variant_name = packet_type_name;
}

pub data PayloadType : Type 0 where
  discover start_scan job_details close read write get_id poll : PayloadType

abbrev payload_type_value : PayloadType → ℕ
payload_type_value discover = 0x01
payload_type_value start_scan = 0x02
payload_type_value job_details = 0x10
payload_type_value close = 0x11
payload_type_value read = 0x20
payload_type_value write = 0x21
payload_type_value get_id = 0x30
payload_type_value poll = 0x32

abbrev payload_type_name : PayloadType → String
payload_type_name discover = "discover"
payload_type_name start_scan = "start scan"
payload_type_name job_details = "job details"
payload_type_name close = "close"
payload_type_name read = "read"
payload_type_name write = "write"
payload_type_name get_id = "get identity"
payload_type_name poll = "poll"

abbrev pub payload_type_field : Field PayloadType
payload_type_field = record {
  field_name = "payload type";
  variants =
      (discover, 0x01)
      ∷ (start_scan, 0x02)
      ∷ (job_details, 0x10)
      ∷ (close, 0x11)
      ∷ (read, 0x20)
      ∷ (write, 0x21)
      ∷ (get_id, 0x30)
      ∷ (poll, 0x32)
      ∷ [];
  as_repr = payload_type_value;
  variant_name = payload_type_name;
}

packet_type_find :
    (a : PacketType) → find_variant packet_type_field.variants (packet_type_value a) ≡ some a
packet_type_find printer_command = refl
packet_type_find _ = refl

payload_type_find :
    (a : PayloadType) → find_variant payload_type_field.variants (payload_type_value a) ≡ some a
payload_type_find discover = refl
payload_type_find _ = refl

pub packet_type-IsField : IsField packet_type_field
packet_type-IsField = record {
  find-as_repr = packet_type_find;
  as_repr-find = λ v a h. ground arith;
}

pub payload_type-IsField : IsField payload_type_field
payload_type-IsField = record {
  find-as_repr = payload_type_find;
  as_repr-find = λ v a h. ground arith;
}

pub packet_type_value-lt : (a : PacketType) → packet_type_value a < 256
packet_type_value-lt printer_command = omega arith
packet_type_value-lt _ = omega arith

pub payload_type_value-lt : (a : PayloadType) → payload_type_value a < 256
payload_type_value-lt discover = omega arith
payload_type_value-lt _ = omega arith
