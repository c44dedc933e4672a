-- ===== src/Report.antt =====
-- tools/pms_report.py: the report on the logs of the runs. Python's numbers, `json.dumps` and
-- `yaml.load` are parameters.
pub mod TaskName
pub mod Logs
pub mod Tables
pub mod Html
