-- ===== src/Proto/Header/Types.antt =====
-- proto/fcall.go: the message type numbers and the size limit.
use go9p.Base.{ℕ}

abbrev pub tversion_type : ℕ
tversion_type = 100

abbrev pub rversion_type : ℕ
rversion_type = 101

abbrev pub tauth_type : ℕ
tauth_type = 102

abbrev pub rauth_type : ℕ
rauth_type = 103

abbrev pub tattach_type : ℕ
tattach_type = 104

abbrev pub rattach_type : ℕ
rattach_type = 105

abbrev pub rerror_type : ℕ
rerror_type = 107

abbrev pub tflush_type : ℕ
tflush_type = 108

abbrev pub rflush_type : ℕ
rflush_type = 109

abbrev pub twalk_type : ℕ
twalk_type = 110

abbrev pub rwalk_type : ℕ
rwalk_type = 111

abbrev pub topen_type : ℕ
topen_type = 112

abbrev pub ropen_type : ℕ
ropen_type = 113

abbrev pub tcreate_type : ℕ
tcreate_type = 114

abbrev pub rcreate_type : ℕ
rcreate_type = 115

abbrev pub tread_type : ℕ
tread_type = 116

abbrev pub rread_type : ℕ
rread_type = 117

abbrev pub twrite_type : ℕ
twrite_type = 118

abbrev pub rwrite_type : ℕ
rwrite_type = 119

abbrev pub tclunk_type : ℕ
tclunk_type = 120

abbrev pub rclunk_type : ℕ
rclunk_type = 121

abbrev pub tremove_type : ℕ
tremove_type = 122

abbrev pub rremove_type : ℕ
rremove_type = 123

abbrev pub tstat_type : ℕ
tstat_type = 124

abbrev pub rstat_type : ℕ
rstat_type = 125

abbrev pub twstat_type : ℕ
twstat_type = 126

abbrev pub rwstat_type : ℕ
rwstat_type = 127

abbrev pub max_msg_len : ℕ
max_msg_len = 65535
