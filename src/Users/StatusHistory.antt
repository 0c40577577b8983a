-- ===== src/Users/StatusHistory.antt =====
-- frontend/src/pages/UsersPage/components/StatusHistoryModal/StatusHistoryModal.tsx: what the window says
-- of a change of an account's status.
use Prim.Native.String
use vpnshiki.Prelude.{none, some, String, Option}
use vpnshiki.Entities.Users.{AccountStatus, StatusChangeSource, UserStatusHistory}

unfoldable pub status_label : AccountStatus → String
status_label AccountStatus.active = "Активен"
status_label AccountStatus.paused = "Приостановлен"
status_label AccountStatus.blocked = "Заблокирован"

unfoldable pub current_description : AccountStatus → String
current_description AccountStatus.active = "Аккаунт работает без ограничений"
current_description AccountStatus.paused = "Участие и списания приостановлены"
current_description AccountStatus.blocked = "Доступ к VPN заблокирован"

-- The reason by the source and the new status, for a change that has a previous status.
unfoldable pub change_reason : StatusChangeSource → AccountStatus → String
change_reason StatusChangeSource.top_up status = "Баланс снова в допустимых пределах"
change_reason StatusChangeSource.billing AccountStatus.blocked = "Превышен допустимый минус"
change_reason StatusChangeSource.user status = "Аккаунт активирован пользователем"
change_reason StatusChangeSource.admin AccountStatus.active = "Аккаунт активирован администратором"
change_reason StatusChangeSource.admin AccountStatus.paused = "Участие приостановлено вручную"
change_reason StatusChangeSource.admin AccountStatus.blocked = "Аккаунт заблокирован вручную"
change_reason _ _ = "Статус аккаунта изменён"

unfoldable pub event_reason : UserStatusHistory → String
unfolding change_reason
event_reason event = elim event.previous_status [
  | none ↦ "Начальное состояние аккаунта"
  | some _ ↦ change_reason event.source event.new_status
]

abbrev name_or : Option String → String → String
name_or none default = default
name_or (some name) default = name

unfoldable pub event_meta : UserStatusHistory → String
event_meta event = elim event.source [
  | StatusChangeSource.top_up ↦ "Автоматически после пополнения баланса"
  | StatusChangeSource.billing ↦ "Автоматически по результатам биллинга"
  | StatusChangeSource.user ↦
      String.◌++◌ "Активировал " (name_or event.changed_by_name "пользователь")
  | StatusChangeSource.admin ↦
      String.◌++◌ "Изменил " (name_or event.changed_by_name "администратор")
  | StatusChangeSource.bootstrap ↦ "Создано системой"
]
