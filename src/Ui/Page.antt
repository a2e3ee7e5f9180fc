-- ===== src/Ui/Page.antt =====
-- src/lapcare/ui/pages/base_view_model.py
use lapcare.Common.{String, Option, none, some, str_eq, if◌then◌else◌}
use lapcare.Models.{Availability, tool_missing, permission_denied}
use lapcare.Errors.{
  provider_unavailable, provider_timeout, provider_parse_error, Exc, lapcare_error, message,
  exc_text,
}
use lapcare.Ui.Text.{Text, plain, tr, fill, blank}

-- `STATES`
pub data PageState : Type 0 where
  loading ready unavailable error : PageState

-- The properties of `PageViewModel`.
pub record Page : Type 0 where
  pub state : PageState
  pub unavailable_reason : Text
  pub unavailable_remedy : Text
  pub error_detail : Text

abbrev pub new_page : Page
new_page = record {
  state = loading;
  unavailable_reason = blank;
  unavailable_remedy = blank;
  error_detail = blank;
}

abbrev pub show_loading : Page → Page
show_loading p = record p { state = loading }

abbrev pub show_ready : Page → Page
show_ready p = record p { state = ready }

abbrev pub show_unavailable : Text → Text → Page → Page
show_unavailable reason remedy p = record p {
  unavailable_reason = reason;
  unavailable_remedy = remedy;
  state = unavailable;
}

abbrev pub show_error : Text → Page → Page
show_error detail p = record p { error_detail = detail; state = error }

abbrev pub tool_remedy : Option String → Text
tool_remedy none = tr "Install the missing tool to enable it."
tool_remedy (some tool) =
    if str_eq tool ""
    then tr "Install the missing tool to enable it."
    else fill (tr "Install the '%s' package to enable it.") (plain tool)

abbrev pub reason_text : Availability → Text
reason_text tool_missing = tr "This panel needs a tool that is not installed."
reason_text permission_denied = tr "Lapcare does not have permission to read this data."
reason_text _ = tr "This hardware does not expose this data."

abbrev pub remedy_text : Availability → Option String → Text
remedy_text tool_missing tool = tool_remedy tool
remedy_text permission_denied tool = tr "This data needs administrator access."
remedy_text _ tool = tr "Nothing to do — the panel is not applicable to this machine."

-- Every exception ends in a page state with its text.
unfoldable pub handle_error : Exc → Page → Page
handle_error (lapcare_error (provider_unavailable source reason tool)) =
    show_unavailable (reason_text reason) (remedy_text reason tool)
handle_error (lapcare_error (provider_timeout source detail)) =
    show_error (plain (message (provider_timeout source detail)))
handle_error (lapcare_error (provider_parse_error source detail)) =
    show_error (plain (message (provider_parse_error source detail)))
handle_error exc = show_error (fill (tr "Unexpected error: %s") (plain (exc_text exc)))
