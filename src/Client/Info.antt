-- ===== src/Client/Info.antt =====
-- `get_device_info` of `TTLockClient`, and ttlock_ble/models/device_info.py.
use ttlock_ble.Base.{Option}
use ttlock_ble.Base.Bytes.{Bytes}
use ttlock_ble.Outcome.{Result, ok, ◌>>=◌}
use ttlock_ble.Text.{Text, codes}
use ttlock_ble.Transport.Link.{Link, read_optional_char}

pub record DeviceInfo : Type 0 where
  pub manufacturer : Option Text
  pub model : Option Text
  pub serial_number : Option Text
  pub hardware_revision : Option Text
  pub firmware_revision : Option Text
  pub software_revision : Option Text

-- `utf8` is `bytes.decode("utf-8")`, and `reads` what the GATT read of each characteristic gives.
module _ (utf8 : Bytes → Result Text) (reads : Text → Option Bytes) where
  read_char : Link → Text → Result (Option Text)
  unfolding read_optional_char
  read_char l uuid = read_optional_char utf8 (reads uuid) l

  unfoldable pub get_device_info : Link → Result DeviceInfo
  unfolding read_char
  get_device_info l = do
    manufacturer ← read_char l (codes "00002a29-0000-1000-8000-00805f9b34fb")
    model ← read_char l (codes "00002a24-0000-1000-8000-00805f9b34fb")
    serial_number ← read_char l (codes "00002a25-0000-1000-8000-00805f9b34fb")
    hardware_revision ← read_char l (codes "00002a27-0000-1000-8000-00805f9b34fb")
    firmware_revision ← read_char l (codes "00002a26-0000-1000-8000-00805f9b34fb")
    software_revision ← read_char l (codes "00002a28-0000-1000-8000-00805f9b34fb")
    ok (record {
      manufacturer = manufacturer;
      model = model;
      serial_number = serial_number;
      hardware_revision = hardware_revision;
      firmware_revision = firmware_revision;
      software_revision = software_revision;
    })
