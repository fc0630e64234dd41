-- ===== src/Parser/Method.antt =====
-- src/core/parser/msg_parser.h: `enum request_method`.
use opensips_ng.Prelude.{ℕ}

abbrev pub undef : ℕ
undef = 0

abbrev pub invite : ℕ
invite = 1

abbrev pub cancel : ℕ
cancel = 2

abbrev pub ack : ℕ
ack = 4

abbrev pub bye : ℕ
bye = 8

abbrev pub info : ℕ
info = 16

abbrev pub options : ℕ
options = 32

abbrev pub update : ℕ
update = 64

abbrev pub register : ℕ
register = 128

abbrev pub message : ℕ
message = 256

abbrev pub subscribe : ℕ
subscribe = 512

abbrev pub notify : ℕ
notify = 1024

abbrev pub prack : ℕ
prack = 2048

abbrev pub refer : ℕ
refer = 4096

abbrev pub publish : ℕ
publish = 8192

abbrev pub other : ℕ
other = 16384
