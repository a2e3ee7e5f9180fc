-- ===== src/Lib.antt =====
-- Lapcare, a laptop-care application for Linux (Python, GTK): a model of its logic and the
-- properties that make it correct.
--
-- The program. Pages (src/lapcare/ui/pages/) have view-models, which hold what a page shows and
-- submit coroutines to a scheduler. The coroutines call providers (src/lapcare/providers/) through
-- the interfaces of src/lapcare/core/ports.py; a provider reads files and runs tools by way of
-- src/lapcare/platform/, and what it raises is of the hierarchy in src/lapcare/core/errors.py. The
-- diagnostics engine (src/lapcare/core/diagnostics.py) asks every provider once and makes a report
-- of five checks and a score. The one privileged step is helper/lapcare_helper.py, which pkexec
-- starts for the SMART report of a drive.
--
-- The files, and what they model:
--   Common, Common/*   shared names, lists and integers over the native numbers, Boolean tests,
--                      decimal numerals, and the order of texts.
--   Models             the dataclasses and enumerations of core/models.py.
--   Errors, Exec       the exceptions of core/errors.py, and code that acts on a world of any type
--                      and may raise. An exception outside the hierarchy is `foreign`.
--   Float              Python's float: a record of the operations that the program uses, with the
--                      laws of IEEE 754 arithmetic that the properties rest on. Float/Fixed gives
--                      numbers for which they hold.
--   Json               the values of the json module.
--   Core/Ports         core/ports.py: a provider is a record of actions.
--   Core/Battery, Core/Firmware
--                      core/battery_analysis.py and core/firmware_policy.py.
--   Core/Diagnostics   core/diagnostics.py: Checks has the five check functions, Score has `score`,
--                      Gather has `run`. A loop of a check is a fold of one step over its list.
--   Core/Report        core/report.py: `to_json`, with the document as a value.
--   Helper             helper/lapcare_helper.py: `main` is a function of the arguments and of what
--                      the system answers; it gives the output or the failure line, and the
--                      commands that were run.
--   Python             operations of Python's str, re and shlex that providers use, as a record.
--   Platform/Files, Platform/Subprocess, Platform/History, Platform/Report
--                      platform/files.py, platform/subprocess.py (`run_tool`),
--                      platform/history.py with its two SQL statements on a list of rows, and
--                      platform/report.py with what each of its system calls answers.
--   Providers/StorageSmart
--                      providers/storage_smart.py: inventory, `read_smart`, the translation of
--                      failures, and in Parse the reader of smartctl's JSON.
--   Platform/Scheduler platform/scheduler.py: both schedulers as step relations on the jobs that were
--                      submitted, and in Contract what a submitter is promised.
--   Providers/BatterySysfs, Providers/DiskUsage
--                      providers/battery_sysfs.py and providers/disk_usage.py, on a state of the
--                      file system. A path is the list of its names, the last one first.
--   Providers/Hwmon, Providers/Dmi, Providers/OsInfo, Providers/Thinkpad, Providers/PciUsb
--                      providers/hwmon.py, dmi.py, os_info.py, thinkpad_acpi.py and pci_usb.py.
--   Providers/Fwupd    providers/fwupd.py: the translations, and in Queries and Install the methods on
--                      a state that has the provider's attributes beside the world. The signals of
--                      an install come with the daemon's reply to it.
--   Providers/Upower   providers/upower.py, with the values of D-Bus as a data type; in Subscribe its
--                      subscriptions and the provider as its port has it.
--   Capture            capture.py, by the files that a capture writes and the notes of its README.
--   Ui/Page, Ui/Text   ui/pages/base_view_model.py, and the texts that pages show: a translated or
--                      formatted text is kept as an expression, of which the code asks only
--                      whether it is empty.
--   Ui/Firmware, Ui/Storage, Ui/Diagnostics
--                      the view_model.py of each page. A handler is a function from the page to
--                      the page and to what it submits. Firmware/System, Storage/Busy and
--                      Diagnostics/Busy put a page together with the jobs that are under way; an
--                      event is a click, a signal, a timer or the end of a job, and a run is any
--                      list of events.
--   Ui/Battery         ui/pages/battery/view_model.py, and `format_uptime` of the dashboard on whole
--                      seconds.
--   Ui/Hardware, Ui/Dashboard
--                      ui/pages/hardware/view_model.py and ui/pages/dashboard/view_model.py.
--   Ui/Window          ui/window.py: the pages and the way between them.
--   Ui/LiveUpdates     the pages that listen to a daemon, with their providers.
--   App                app.py: the providers that `do_activate` makes, for the dashboard, the
--                      hardware page and the diagnostics page.
--   Ui/Cards, Ui/Render
--                      the display data of a run (diagnostics/view_model.py), and
--                      diagnostics/report_render.py.
--   */Tests, */Samples
--                      runs on small inputs.
--
-- Bounds and fuel. Every loop is a recursion on its list. The only fuel is in the decimal numeral
-- of a number n, which is given n + 1 steps; Common/Text proves that more change nothing. A score is
-- computed in halves of a point and rounded as `round` does, to the nearest integer with ties to
-- even.
--
-- Code outside the repository is a parameter: what providers answer (a record of actions), the
-- process that a tool runs as, the file system, libfwupd, the bus and its daemons, what asyncio and
-- GLib do with a task, `json.loads` and `json.dumps`, `html.escape`, `shlex.split`, `re`,
-- `str.endswith`, `splitlines`, `strip` and `int`, the clock and the float operations. A hypothesis
-- on one of them is what its documentation says: that a port raises exceptions of the hierarchy only
-- (`Conforms`), that processes are started and killed (`IsControlled`), that the lines of the table of
-- mounts can be read (`IsReadable`), and the laws `IsIeee`. Where the runner, `json.loads` or
-- `os.statvfs` can raise an exception that the source does not catch, the model has it as `foreign`.
--
-- Not modelled: widgets and drawing, the command line, start-up and logging (calls of the
-- toolkit with no logic of the program's own). A subscription changes the provider or the bus; what
-- a subscriber is told afterwards is an event of its page.
pub mod Common
pub mod Models
pub mod Errors
pub mod Exec
pub mod Float
pub mod Core
pub mod Json
pub mod Python
pub mod Platform
pub mod Providers
pub mod Helper
pub mod Ui
pub mod App
pub mod Capture
