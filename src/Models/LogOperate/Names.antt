-- ===== src/Models/LogOperate/Names.antt =====
-- The names of the members of `LogOperate`.
use ttlock_ble.Models.LogOperate.{
  LogOperate, mobile_unlock, server_unlock, keyboard_password_unlock, keyboard_modify_password,
  keyboard_remove_single_password, error_password_unlock, keyboard_remove_all_passwords,
  keyboard_password_kicked, use_delete_code, passcode_expired, space_insufficient,
  passcode_in_black_list, door_reboot, add_ic, clear_ic_succeed, ic_unlock_succeed,
  delete_ic_succeed, bong_unlock, fr_unlock_succeed, add_fr, fr_unlock_failed, delete_fr_succeed,
  clear_fr_succeed, ic_unlock_failed, operate_ble_lock, operate_key_unlock, gateway_unlock,
  illegal_unlock, door_sensor_lock, door_sensor_unlock, door_go_out, fr_lock, passcode_lock,
  ic_lock, operate_key_lock, remote_control_key, passcode_unlock_failed_lock_reverse,
  ic_unlock_failed_lock_reverse, fr_unlock_failed_lock_reverse, app_unlock_failed_lock_reverse,
  high_temperature_unlock, ic_unlock_failed_blacklist, app_dead_lock, wireless_key_fob,
  wireless_key_pad, qr_code_unlock_success, qr_code_unlock_failed, qr_code_lock_success,
  qr_code_unlock_failed_lock_reverse, door_not_close_alarm, face_3d_unlock_success,
  face_3d_unlock_failed_lock_reverse, face_3d_lock, face_3d_add_success,
  face_3d_unlock_failed_invalid_time, face_3d_delete_success, face_3d_clear_success,
  cpu_card_unlock_failed, app_auth_key_unlock_success, gateway_auth_key_unlock_success,
  double_check_key_unlock, double_check_passcode_unlock, double_check_finger_print_unlock,
  double_check_card_unlock, double_check_face_unlock, double_check_key_fob_unlock,
  double_check_palm_vein_unlock, palm_vein_unlock_success, palm_vein_unlock_failed_lock_reverse,
  palm_vein_lock, palm_vein_add_success, palm_vein_unlock_failed, palm_vein_delete_success,
  palm_vein_clear_success, card_unlock_failed, admin_code_unlock, add_passcode_successfully,
  third_device_unlock_success, third_device_lock_success, third_device_unlock_failed_lock_reverse,
  third_device_unlock_failed_invalid_time, double_check_third_device_verify, add_third_device,
  delete_third_device, clear_third_device, anlangjie_log, low_battery_auto_unlock,
  high_temperature_alarm, fire_alarm, get_nfc_lock_state,
}
use ttlock_ble.Text.{Text, codes}

-- `member.name`
unfoldable pub name_of : LogOperate → Text
name_of mobile_unlock = codes "MOBILE_UNLOCK"
name_of server_unlock = codes "SERVER_UNLOCK"
name_of keyboard_password_unlock = codes "KEYBOARD_PASSWORD_UNLOCK"
name_of keyboard_modify_password = codes "KEYBOARD_MODIFY_PASSWORD"
name_of keyboard_remove_single_password = codes "KEYBOARD_REMOVE_SINGLE_PASSWORD"
name_of error_password_unlock = codes "ERROR_PASSWORD_UNLOCK"
name_of keyboard_remove_all_passwords = codes "KEYBOARD_REMOVE_ALL_PASSWORDS"
name_of keyboard_password_kicked = codes "KEYBOARD_PASSWORD_KICKED"
name_of use_delete_code = codes "USE_DELETE_CODE"
name_of passcode_expired = codes "PASSCODE_EXPIRED"
name_of space_insufficient = codes "SPACE_INSUFFICIENT"
name_of passcode_in_black_list = codes "PASSCODE_IN_BLACK_LIST"
name_of door_reboot = codes "DOOR_REBOOT"
name_of add_ic = codes "ADD_IC"
name_of clear_ic_succeed = codes "CLEAR_IC_SUCCEED"
name_of ic_unlock_succeed = codes "IC_UNLOCK_SUCCEED"
name_of delete_ic_succeed = codes "DELETE_IC_SUCCEED"
name_of bong_unlock = codes "BONG_UNLOCK"
name_of fr_unlock_succeed = codes "FR_UNLOCK_SUCCEED"
name_of add_fr = codes "ADD_FR"
name_of fr_unlock_failed = codes "FR_UNLOCK_FAILED"
name_of delete_fr_succeed = codes "DELETE_FR_SUCCEED"
name_of clear_fr_succeed = codes "CLEAR_FR_SUCCEED"
name_of ic_unlock_failed = codes "IC_UNLOCK_FAILED"
name_of operate_ble_lock = codes "OPERATE_BLE_LOCK"
name_of operate_key_unlock = codes "OPERATE_KEY_UNLOCK"
name_of gateway_unlock = codes "GATEWAY_UNLOCK"
name_of illegal_unlock = codes "ILLEGAL_UNLOCK"
name_of door_sensor_lock = codes "DOOR_SENSOR_LOCK"
name_of door_sensor_unlock = codes "DOOR_SENSOR_UNLOCK"
name_of door_go_out = codes "DOOR_GO_OUT"
name_of fr_lock = codes "FR_LOCK"
name_of passcode_lock = codes "PASSCODE_LOCK"
name_of ic_lock = codes "IC_LOCK"
name_of operate_key_lock = codes "OPERATE_KEY_LOCK"
name_of remote_control_key = codes "REMOTE_CONTROL_KEY"
name_of passcode_unlock_failed_lock_reverse = codes "PASSCODE_UNLOCK_FAILED_LOCK_REVERSE"
name_of ic_unlock_failed_lock_reverse = codes "IC_UNLOCK_FAILED_LOCK_REVERSE"
name_of fr_unlock_failed_lock_reverse = codes "FR_UNLOCK_FAILED_LOCK_REVERSE"
name_of app_unlock_failed_lock_reverse = codes "APP_UNLOCK_FAILED_LOCK_REVERSE"
name_of high_temperature_unlock = codes "HIGH_TEMPERATURE_UNLOCK"
name_of ic_unlock_failed_blacklist = codes "IC_UNLOCK_FAILED_BLACKLIST"
name_of app_dead_lock = codes "APP_DEAD_LOCK"
name_of wireless_key_fob = codes "WIRELESS_KEY_FOB"
name_of wireless_key_pad = codes "WIRELESS_KEY_PAD"
name_of qr_code_unlock_success = codes "QR_CODE_UNLOCK_SUCCESS"
name_of qr_code_unlock_failed = codes "QR_CODE_UNLOCK_FAILED"
name_of qr_code_lock_success = codes "QR_CODE_LOCK_SUCCESS"
name_of qr_code_unlock_failed_lock_reverse = codes "QR_CODE_UNLOCK_FAILED_LOCK_REVERSE"
name_of door_not_close_alarm = codes "DOOR_NOT_CLOSE_ALARM"
name_of face_3d_unlock_success = codes "FACE_3D_UNLOCK_SUCCESS"
name_of face_3d_unlock_failed_lock_reverse = codes "FACE_3D_UNLOCK_FAILED_LOCK_REVERSE"
name_of face_3d_lock = codes "FACE_3D_LOCK"
name_of face_3d_add_success = codes "FACE_3D_ADD_SUCCESS"
name_of face_3d_unlock_failed_invalid_time = codes "FACE_3D_UNLOCK_FAILED_INVALID_TIME"
name_of face_3d_delete_success = codes "FACE_3D_DELETE_SUCCESS"
name_of face_3d_clear_success = codes "FACE_3D_CLEAR_SUCCESS"
name_of cpu_card_unlock_failed = codes "CPU_CARD_UNLOCK_FAILED"
name_of app_auth_key_unlock_success = codes "APP_AUTH_KEY_UNLOCK_SUCCESS"
name_of gateway_auth_key_unlock_success = codes "GATEWAY_AUTH_KEY_UNLOCK_SUCCESS"
name_of double_check_key_unlock = codes "DOUBLE_CHECK_KEY_UNLOCK"
name_of double_check_passcode_unlock = codes "DOUBLE_CHECK_PASSCODE_UNLOCK"
name_of double_check_finger_print_unlock = codes "DOUBLE_CHECK_FINGER_PRINT_UNLOCK"
name_of double_check_card_unlock = codes "DOUBLE_CHECK_CARD_UNLOCK"
name_of double_check_face_unlock = codes "DOUBLE_CHECK_FACE_UNLOCK"
name_of double_check_key_fob_unlock = codes "DOUBLE_CHECK_KEY_FOB_UNLOCK"
name_of double_check_palm_vein_unlock = codes "DOUBLE_CHECK_PALM_VEIN_UNLOCK"
name_of palm_vein_unlock_success = codes "PALM_VEIN_UNLOCK_SUCCESS"
name_of palm_vein_unlock_failed_lock_reverse = codes "PALM_VEIN_UNLOCK_FAILED_LOCK_REVERSE"
name_of palm_vein_lock = codes "PALM_VEIN_LOCK"
name_of palm_vein_add_success = codes "PALM_VEIN_ADD_SUCCESS"
name_of palm_vein_unlock_failed = codes "PALM_VEIN_UNLOCK_FAILED"
name_of palm_vein_delete_success = codes "PALM_VEIN_DELETE_SUCCESS"
name_of palm_vein_clear_success = codes "PALM_VEIN_CLEAR_SUCCESS"
name_of card_unlock_failed = codes "CARD_UNLOCK_FAILED"
name_of admin_code_unlock = codes "ADMIN_CODE_UNLOCK"
name_of add_passcode_successfully = codes "ADD_PASSCODE_SUCCESSFULLY"
name_of third_device_unlock_success = codes "THIRD_DEVICE_UNLOCK_SUCCESS"
name_of third_device_lock_success = codes "THIRD_DEVICE_LOCK_SUCCESS"
name_of third_device_unlock_failed_lock_reverse = codes "THIRD_DEVICE_UNLOCK_FAILED_LOCK_REVERSE"
name_of third_device_unlock_failed_invalid_time = codes "THIRD_DEVICE_UNLOCK_FAILED_INVALID_TIME"
name_of double_check_third_device_verify = codes "DOUBLE_CHECK_THIRD_DEVICE_VERIFY"
name_of add_third_device = codes "ADD_THIRD_DEVICE"
name_of delete_third_device = codes "DELETE_THIRD_DEVICE"
name_of clear_third_device = codes "CLEAR_THIRD_DEVICE"
name_of anlangjie_log = codes "ANLANGJIE_LOG"
name_of low_battery_auto_unlock = codes "LOW_BATTERY_AUTO_UNLOCK"
name_of high_temperature_alarm = codes "HIGH_TEMPERATURE_ALARM"
name_of fire_alarm = codes "FIRE_ALARM"
name_of get_nfc_lock_state = codes "GET_NFC_LOCK_STATE"
