-- ===== src/Enums/Tag.antt =====
-- `TlvValue` of src/atvr4samsung/companion/protocol/tlv8.py.
use atvr4samsung.Common.{ℕ}

abbrev pub identifier : ℕ
identifier = 1

abbrev pub salt : ℕ
salt = 2

abbrev pub public_key : ℕ
public_key = 3

abbrev pub proof : ℕ
proof = 4

abbrev pub encrypted_data : ℕ
encrypted_data = 5

abbrev pub seq_no : ℕ
seq_no = 6

abbrev pub error : ℕ
error = 7

abbrev pub back_off : ℕ
back_off = 8

abbrev pub signature : ℕ
signature = 10
