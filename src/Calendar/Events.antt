-- ===== src/Calendar/Events.antt =====
-- tools/google_calendar.py: the start and end of an event, as they are sent and as they are shown.
use core_heartbeat.Prelude.{
  Bool, false, not, ◌&&◌, ◌==◌, Option, none, some, List, [], ◌∷◌, ◌++◌, if◌then◌else◌, ◌>>=◌,
  codes, is_empty, is_space, strip,
}
use core_heartbeat.Calendar.Dates.{Text, Date, next_day, previous_day, iso, strptime}

-- A start or an end as it is sent: an all-day date, or a time with the calendar's zone.
pub data TimeField : Type 0 where
  date : Text → TimeField
  date_time : Text → Text → TimeField

-- An event that Google returns; a text that it leaves out is empty.
pub record Event : Type 0 where
  pub id : Text
  pub summary : Text
  pub location : Text
  pub start_date_time : Text
  pub start_date : Text
  pub end_date_time : Text
  pub end_date : Text

-- `_is_all_day`
unfoldable pub is_all_day : Text → Bool
is_all_day (a ∷ b ∷ c ∷ d ∷ e ∷ f ∷ g ∷ h ∷ i ∷ j ∷ []) = e == b'-' && h == b'-'
is_all_day _ = false

-- A value, or the exception OverflowError.
pub data Shifted : Type 0 where
  text : Text → Shifted
  overflow : Shifted

abbrev pub printed : Option Date → Shifted
printed none = overflow
printed (some t) = text (iso t)

-- A day moved, or the text itself where it is no date.
abbrev pub moved_or_same : (Date → Option Date) → Text → Option Date → Shifted
moved_or_same move v none = text v
moved_or_same move v (some t) = printed (move t)

unfoldable pub shift : (Date → Option Date) → Text → Shifted
shift move v = moved_or_same move v (strptime v)

abbrev pub dated : Shifted → Option TimeField
dated (text v) = some (date v)
dated overflow = none

-- `_time_field`, none where the date overflows
unfoldable pub time_field : Text → Text → Bool → Option TimeField
unfolding is_all_day shift is_space
time_field value tz is_end =
    let v = strip is_space value in
    if is_all_day v
    then (if is_end then dated (shift next_day v) else some (date v))
    else some (date_time v tz)

abbrev pub or_text : Text → Text → Text
or_text [] b = b
or_text (c ∷ s) b = c ∷ s

-- The last day of an event, from the day after it.
unfoldable pub shown_end : Event → Shifted
unfolding is_all_day shift
shown_end e =
    let end = or_text e.end_date_time (or_text e.end_date (codes "?")) in
    if is_empty e.end_date_time && not (is_empty e.end_date) && is_all_day end
    then shift previous_day end
    else text end

abbrev pub shown_start : Event → Text
shown_start e = or_text e.start_date_time (or_text e.start_date (codes "?"))

abbrev pub event_line : Event → Shifted → Option Text
event_line e overflow = none
event_line e (text end) = some (
    codes "• "
    ++ (or_text e.summary (codes "(no title)")
        ++ (codes " — "
            ++ (shown_start e
                ++ (codes " to "
                    ++ (end
                        ++ ((if is_empty e.location then [] else codes " @ " ++ e.location)
                            ++ (codes "  [id: " ++ (e.id ++ codes "]")))))))))

-- `_fmt_event`, none where the date overflows
unfoldable pub fmt_event : Event → Option Text
unfolding shown_end
fmt_event e = event_line e (shown_end e)

-- `"\n".join(_fmt_event(e) for e in items)`
unfoldable pub fmt_events : List Event → Option Text
unfolding fmt_event
fmt_events [] = some []
fmt_events (e ∷ es) =
    let rest = fmt_events es in
    fmt_event e >>= λ line. elim es [
      | [] ↦ some line
      | f ∷ fs ↦ rest >>= λ more. some (line ++ (10 ∷ more))
    ]
