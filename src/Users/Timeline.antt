-- ===== src/Users/Timeline.antt =====
-- The window of frontend/src/pages/UsersPage/components/StatusHistoryModal/StatusHistoryModal.tsx. The formatters of
-- dates are parameters.
use vpnshiki.Query.{
  loading, failed, loaded, Query, QueryView, waits, offers_retry, says_empty, shows,
}
use vpnshiki.Prelude.{none, some, [], ◌∷◌, String, List, Option, if◌then◌else◌, str_eq, ◌++◌, map}
use vpnshiki.Entities.Users.{StatusChangeSource, AccountStatus, UserStatusHistory}
use vpnshiki.Text.{Text, codes}
use vpnshiki.Users.StatusHistory.{status_label, current_description, event_reason, event_meta}

unfoldable pub source_label : StatusChangeSource → String
source_label StatusChangeSource.bootstrap = "система"
source_label StatusChangeSource.admin = "админ"
source_label StatusChangeSource.billing = "биллинг"
source_label StatusChangeSource.top_up = "пополнение"
source_label StatusChangeSource.user = "пользователь"

unfoldable pub badge_label : Option AccountStatus → String
unfolding status_label
badge_label none = "Создан"
badge_label (some status) = status_label status

pub record TimelineEvent : Type 0 where
  pub date : Text
  pub time : Text
  pub from_label : String
  pub to_label : String
  pub reason : String
  pub meta : String
  pub source : String

pub record StatusWindow : Type 0 where
  pub current : String
  pub current_label : String
  pub since : Option Text
  pub timeline : QueryView (List TimelineEvent)

abbrev events_of : Query (List UserStatusHistory) → List UserStatusHistory
events_of (loaded events) = events
events_of _ = []

module _ (date time day_month : String → Text) where
  unfoldable pub timeline_event : UserStatusHistory → TimelineEvent
  unfolding badge_label event_reason event_meta source_label
  timeline_event event = record {
    date = date event.effective_at;
    time = time event.effective_at;
    from_label = badge_label event.previous_status;
    to_label = badge_label (some event.new_status);
    reason = event_reason event;
    meta = event_meta event;
    source = source_label event.source;
  }

  -- `currentSince`, which an empty text would hide too.
  unfoldable pub current_since : List UserStatusHistory → Option Text
  current_since [] = none
  current_since (event ∷ events) =
      if str_eq event.effective_at ""
      then none
      else some (codes "с " ++ day_month event.effective_at)

  timeline : Query (List UserStatusHistory) → QueryView (List TimelineEvent)
  unfolding timeline_event
  timeline loading = waits "Загружаем историю статуса"
  timeline failed = offers_retry "Не удалось загрузить историю статуса."
  timeline (loaded []) = says_empty "История статуса пока пуста."
  timeline (loaded (event ∷ events)) = shows (map timeline_event (event ∷ events))

  unfoldable pub status_window : AccountStatus → Query (List UserStatusHistory) → StatusWindow
  unfolding timeline current_since current_description badge_label
  status_window status query = record {
    current = current_description status;
    current_label = badge_label (some status);
    since = current_since (events_of query);
    timeline = timeline query;
  }
