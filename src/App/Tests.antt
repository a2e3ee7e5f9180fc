-- ===== src/App/Tests.antt =====
-- Examples of the application's runs: a desktop without any of the tools and without fwupd.
use lapcare.Common.{ℕ, ◌+◌, String, true, false, none, some, [], ◌∷◌, ◌≡◌, refl}
use lapcare.Common.Int.{ℤ}
use lapcare.Float.Fixed.{fixed_float}
use lapcare.Errors.{foreign}
use lapcare.Exec.{ok, err}
use lapcare.Core.Ports.{ReportWriter}
use lapcare.Platform.Files.{FileSystem}
use lapcare.Platform.Subprocess.{timed_out}
use lapcare.Python.{Str}
use lapcare.Providers.DiskUsage as disk_usage
use lapcare.Providers.StorageSmart as storage_smart
use lapcare.Providers.Fwupd.{refused, GError, other_code}
use lapcare.Providers.Fwupd.Queries.{Daemon, Local, State}
use lapcare.Ui.Diagnostics.{timed_run}
use lapcare.App.{Machine, diagnostics_providers}
use lapcare.App.Runs.{timed_run_unlisted}

abbrev files : FileSystem
files = record {
  list_dir = λ path. none;
  is_dir = λ path. false;
  denied = λ path. false;
  exists = λ path. false;
  content = λ path. some "mounts";
  size = λ text. 0;
  decode = λ text. text;
  parse_int = λ text. none;
}

abbrev unplugged : GError
unplugged = record { code = other_code; message = "no daemon" }

abbrev daemon : Daemon ℕ
daemon = record {
  get_devices = λ w. (refused unplugged, w + 1);
  get_upgrades = λ id w. (refused unplugged, w + 1);
  get_remotes = λ w. (refused unplugged, w + 1);
  refresh_remote = λ r w. (refused unplugged, w + 1);
  get_device_by_id = λ id w. (refused unplugged, w + 1);
  install_release = λ d r w. ((refused unplugged, []), w + 1);
  status_nick = λ n. "";
  connect = λ w. (refused unplugged, w + 1);
  name_has_owner = λ w. (refused unplugged, w + 1);
  get_all = λ w. (refused unplugged, w + 1);
}

abbrev py : Str
py = record {
  split_lines = λ text. text ∷ [];
  split = λ text. text ∷ [];
  strip = λ text. text;
  strip_quotes = λ text. text;
  upper = λ text. text;
  lower = λ text. text;
  contains = λ part text. false;
  before = λ separator text. text;
  after = λ separator text. text;
  parse_int = λ text. none;
  shlex_split = λ line. none;
}

abbrev machine : Machine String String ℕ ℤ
machine = record {
  files = λ w. files;
  system = record {
    is_executable = λ path. false;
    execute = λ path args w. (timed_out, w + 1);
    size = λ text. 0;
    decode = λ text. text;
    clip = λ text. text;
  };
  daemon = daemon;
  on_progress = "page";
  on_change = "page";
  str = py;
  parse_float = λ text. none;
  temp_number = λ entry. none;
  disk = record {
    split_lines = λ text. text ∷ [];
    split = λ text. "/dev/sda1" ∷ "/" ∷ "ext4" ∷ [];
    unicode_escape = λ text. some text;
    statvfs = λ path. disk_usage.stat 4096 10 3;
  };
  storage = record {
    split_lines = λ text. text ∷ [];
    second_part = λ text. text;
    strip = λ text. text;
    contains = λ part text. false;
    loads = λ text. storage_smart.invalid;
    timeout_text = λ tool. tool;
  };
  pci_usb = record { usb_line = λ line. none; timeout_text = λ tool. tool };
}

abbrev idle : Local String String
idle = record { connected = false; on_progress = none; subscribers = []; reports = [] }

abbrev writer : ReportWriter (State String String ℕ)
writer = record { write = λ path text s. (ok tt, s) }

-- The same machine, on which the directory of the power supplies is there and cannot be read.
abbrev locked : Machine String String ℕ ℤ
locked = record machine { files = λ w. record files { is_dir = λ path. true } }

timed_run_unlisted_example :
    (timed_run (diagnostics_providers locked writer) (idle, 0)).0 ≡ err (foreign "OSError")
timed_run_unlisted_example = timed_run_unlisted locked writer idle 0 refl refl
