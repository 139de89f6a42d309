-- ===== src/Store/Views.antt =====
-- The state of each view that survives a change of route, and the actions that patch it.
use nats_ui.Prelude.{String, ◌^+◌, Bool, false, Option, none, or_else, List, [], ◌∷◌}
use nats_ui.Types.Publishing.{PublishMode, PublishEncoding}

pub data TailMode : Type 0 where
  stream subject : TailMode

pub record TailViewState : Type 0 where
  pub mode : TailMode
  pub selected_stream : String
  pub subject_pattern : String
  pub filter : String
  pub is_paused : Bool

pub record BrowserViewState : Type 0 where
  pub selected_stream : String
  pub subject_filter : String
  pub start_seq : String

pub record ConsumerViewState : Type 0 where
  pub selected_stream : String
  pub selected_consumer : Option String

pub record PublisherOpts : Type 0 where
  pub mode : Option PublishMode
  pub encoding : Option PublishEncoding
  pub reply_to : Option String
  pub msg_id : Option String
  pub expect_stream : Option String
  pub expect_last_seq : Option String
  pub expect_last_subject_seq : Option String
  pub expect_last_msg_id : Option String

pub record Header : Type 0 where
  pub key : String
  pub value : String

pub record PublisherTab : Type 0 where
  pub id : String
  pub label : String
  pub subject : String
  pub payload : String
  pub headers : List Header
  pub opts : Option PublisherOpts

pub record PublisherViewState : Type 0 where
  pub tabs : List PublisherTab
  pub active_tab_id : String

pub record ViewStates : Type 0 where
  pub tail : TailViewState
  pub browser : BrowserViewState
  pub consumers : ConsumerViewState
  pub publisher : PublisherViewState

-- `now` is `Date.now()` and `n` the tab's number, as texts.
pub new_publisher_tab : String → String → PublisherTab
new_publisher_tab now n = record {
  id = "tab-" ^+ now ^+ "-" ^+ n;
  label = "Tab " ^+ n;
  subject = "";
  payload = "";
  headers = [];
  opts = none;
}

pub default_view_states : String → ViewStates
unfolding new_publisher_tab
default_view_states now = record {
  tail = record {
    mode = stream;
    selected_stream = "";
    subject_pattern = "";
    filter = "";
    is_paused = false;
  };
  browser = record { selected_stream = ""; subject_filter = ""; start_seq = "" };
  consumers = record { selected_stream = ""; selected_consumer = none };
  publisher = record { tabs = new_publisher_tab now "1" ∷ []; active_tab_id = "" };
}

-- `Partial<TailViewState>` and the like.
pub record TailPatch : Type 0 where
  pub mode : Option TailMode
  pub selected_stream : Option String
  pub subject_pattern : Option String
  pub filter : Option String
  pub is_paused : Option Bool

pub record BrowserPatch : Type 0 where
  pub selected_stream : Option String
  pub subject_filter : Option String
  pub start_seq : Option String

pub record ConsumerPatch : Type 0 where
  pub selected_stream : Option String
  pub selected_consumer : Option (Option String)

pub record PublisherPatch : Type 0 where
  pub tabs : Option (List PublisherTab)
  pub active_tab_id : Option String

pub set_tail_state : TailPatch → ViewStates → ViewStates
set_tail_state p s = record s {
  tail = record {
    mode = or_else p.mode s.tail.mode;
    selected_stream = or_else p.selected_stream s.tail.selected_stream;
    subject_pattern = or_else p.subject_pattern s.tail.subject_pattern;
    filter = or_else p.filter s.tail.filter;
    is_paused = or_else p.is_paused s.tail.is_paused;
  };
}

pub set_browser_state : BrowserPatch → ViewStates → ViewStates
set_browser_state p s = record s {
  browser = record {
    selected_stream = or_else p.selected_stream s.browser.selected_stream;
    subject_filter = or_else p.subject_filter s.browser.subject_filter;
    start_seq = or_else p.start_seq s.browser.start_seq;
  };
}

unfoldable pub set_consumer_state : ConsumerPatch → ViewStates → ViewStates
set_consumer_state p s = record s {
  consumers = record {
    selected_stream = or_else p.selected_stream s.consumers.selected_stream;
    selected_consumer = or_else p.selected_consumer s.consumers.selected_consumer;
  };
}

pub set_publisher_state : PublisherPatch → ViewStates → ViewStates
set_publisher_state p s = record s {
  publisher = record {
    tabs = or_else p.tabs s.publisher.tabs;
    active_tab_id = or_else p.active_tab_id s.publisher.active_tab_id;
  };
}
