-- ===== src/Opcodes.antt =====
-- ttlock_ble/commands/opcodes.py: the command bytes that the client sends.
use ttlock_ble.Base.{ℕ}

abbrev pub cmd_search_device_feature : ℕ
cmd_search_device_feature = 0x01

abbrev pub cmd_manage_keyboard_password : ℕ
cmd_manage_keyboard_password = 0x03

abbrev pub cmd_manage_ic_card : ℕ
cmd_manage_ic_card = 0x05

abbrev pub cmd_manage_fingerprint : ℕ
cmd_manage_fingerprint = 0x06

abbrev pub cmd_get_passcodes : ℕ
cmd_get_passcodes = 0x07

abbrev pub cmd_query_state : ℕ
cmd_query_state = 0x14

abbrev pub cmd_get_operate_log : ℕ
cmd_get_operate_log = 0x25

abbrev pub cmd_check_random : ℕ
cmd_check_random = 0x30

abbrev pub cmd_get_lock_time : ℕ
cmd_get_lock_time = 0x34

abbrev pub cmd_auto_lock_manage : ℕ
cmd_auto_lock_manage = 0x36

abbrev pub cmd_check_admin : ℕ
cmd_check_admin = 0x41

abbrev pub cmd_time_calibrate : ℕ
cmd_time_calibrate = 0x43

abbrev pub cmd_unlock : ℕ
cmd_unlock = 0x47

abbrev pub cmd_check_user_time : ℕ
cmd_check_user_time = 0x55

abbrev pub cmd_lock : ℕ
cmd_lock = 0x58

abbrev pub cmd_set_lock_sound : ℕ
cmd_set_lock_sound = 0x62

abbrev pub cmd_get_device_properties : ℕ
cmd_get_device_properties = 0x90
